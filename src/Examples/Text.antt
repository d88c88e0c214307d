-- ===== src/Examples/Text.antt =====
-- Tests of numbers and memory as text.
use ossim_tcp_client.Prelude.{◌≡◌, refl, [], ◌∷◌, some}
use ossim_tcp_client.App.Text.{
  decimal, version_bytes, version_to_string, num_to_hex_string, has_point, pop_back, num_to_string,
  SizeUnit, friendly_value, to_freindly_string, display_bytes,
}

-- "1.0.2.17"
version_test :
    version_to_string 0x01000211 ≡ b'1' ∷ b'.' ∷ b'0' ∷ b'.' ∷ b'2' ∷ b'.' ∷ b'1' ∷ b'7' ∷ []
unfolding version_to_string version_bytes decimal
version_test = refl

-- "00ff" of 16 bits
hex_test : num_to_hex_string 2 255 ≡ b'0' ∷ b'0' ∷ b'f' ∷ b'f' ∷ []
unfolding num_to_hex_string
hex_test = refl

-- 1536 bytes, where "1.500" is what the stream writes of 1.5
friendly_test :
    to_freindly_string (λ num den. b'1' ∷ b'.' ∷ b'5' ∷ b'0' ∷ b'0' ∷ []) 1536 1
    ≡ b'1' ∷ b'.' ∷ b'5' ∷ b' ' ∷ b'K' ∷ b'B' ∷ []
unfolding to_freindly_string friendly_value num_to_string pop_back has_point
friendly_test = refl

unit_test : friendly_value 1536 1 ≡ (1536, 1024, SizeUnit.kb)
unfolding friendly_value
unit_test = refl

-- The bytes 1 to 9: eight on a line
bytes_test :
    display_bytes 9 (1 ∷ 2 ∷ 3 ∷ 4 ∷ 5 ∷ 6 ∷ 7 ∷ 8 ∷ 9 ∷ []) 0
    ≡ some (
        b'0' ∷ b'1' ∷ b'0' ∷ b'2' ∷ b'0' ∷ b'3' ∷ b'0' ∷ b'4' ∷ b'0' ∷ b'5' ∷ b'0' ∷ b'6' ∷ b'0'
        ∷ b'7' ∷ b'0' ∷ b'8' ∷ 10 ∷ b'0' ∷ b'9' ∷ [])
unfolding display_bytes
bytes_test = refl
