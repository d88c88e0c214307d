-- ===== src/Convertors/Print.antt =====
-- Writing hex files (src/tcpclientapp.cpp): `file_bin_to_hex` and `file_ds8_to_hex`. A word is a line
-- of 16 hex digits; with `tag`, " 02" stands behind it.
pub mod Lines
pub mod RoundTrip
pub mod Frames
use ossim_tcp_client.Prelude.{
  ℕ, zero, suc, ◌+◌, ◌-◌, ◌*◌, ◌/◌, ◌%◌, min, List, [], ◌∷◌, ◌++◌, Option, none, some, Bool, true,
  false, ◌==◌, ltb, if◌then◌else◌, length, take, drop, replicate,
}
use ossim_tcp_client.Bytes.{word_at?, write_at?}
use ossim_tcp_client.Convertors.Ds8.{◌>>=◌, ds8_block_size, header_size}

abbrev pub hex_digit : ℕ → ℕ
hex_digit d = if ltb d 10 then b'0' + d else b'a' + (d - 10)

-- The `k` low digits of a number, highest first
abbrev pub hex_digits : ℕ → ℕ → List ℕ
hex_digits zero n = []
hex_digits (suc k) n = hex_digits k (n / 16) ++ (hex_digit (n % 16) ∷ [])

-- `endLine`
abbrev pub end_line : Bool → List ℕ
end_line true = b' ' ∷ b'0' ∷ b'2' ∷ 10 ∷ []
end_line false = 10 ∷ []

-- `ofs << std::setw(16) << std::setfill('0') << word << endLine`
abbrev pub hex_line : Bool → ℕ → List ℕ
hex_line tag word = hex_digits 16 word ++ end_line tag

-- The inner loops: `count` words of the array `data` from index `j` on
unfoldable pub print_words : Bool → List ℕ → ℕ → ℕ → Option (List ℕ)
print_words tag data_in j zero = some []
print_words tag data_in j (suc count) = word_at? data_in j >>= λ word.
    print_words tag data_in (j + 1) count >>= λ more. some (hex_line tag word ++ more)

-- The loop of `file_bin_to_hex`, on what of the file is not read yet. The buffer of 128 * 128 bytes
-- keeps what it held behind the bytes that are read.
unfoldable pub bin_hex_loop : ℕ → Bool → List ℕ → List ℕ → Option (List ℕ)
bin_hex_loop zero tag rest data_in = if length rest == 0 then some [] else none
bin_hex_loop (suc fuel) tag rest data_in =
    let need = min (128 * 128) (length rest) in
    elim (length rest == 0) [
      | true ↦ some []
      | false ↦ write_at? data_in 0 (take need rest) >>= λ data_in'.
          print_words tag data_in' 0 ((need + 7) / 8) >>= λ lines.
          bin_hex_loop fuel tag (drop need rest) data_in' >>= λ more. some (lines ++ more)
    ]

-- `file_bin_to_hex`
unfoldable pub file_bin_to_hex : Option (List ℕ) → Bool → Bool → Option (Bool × Option (List ℕ))
file_bin_to_hex none creatable tag = some (false, none)
file_bin_to_hex (some file) false tag = some (false, none)
file_bin_to_hex (some file) true tag =
    bin_hex_loop (length file) tag file (replicate (128 * 128) 0) >>= λ out. some (true, some out)

-- The loop of `file_ds8_to_hex` over `count` blocks
unfoldable pub ds8_hex_loop : ℕ → Bool → List ℕ → ℕ → Option (List ℕ)
ds8_hex_loop zero tag blocks buf_size = some []
ds8_hex_loop (suc count) tag blocks buf_size =
    write_at? (replicate (8 * (buf_size / 8)) 0) 0 (take buf_size blocks) >>= λ data_in.
    word_at? data_in 0 >>= λ size. print_words tag data_in 2 (size / 8) >>= λ lines.
    ds8_hex_loop count tag (drop buf_size blocks) buf_size >>= λ more. some (lines ++ more)

-- `file_ds8_to_hex`
unfoldable pub file_ds8_to_hex : Option (List ℕ) → Bool → Bool → Option (Bool × Option (List ℕ))
file_ds8_to_hex none creatable tag = some (false, none)
file_ds8_to_hex (some file) creatable tag = ds8_block_size file >>= λ size?. elim size? [
  | none ↦ some (false, none)
  | some buf_size ↦
      if creatable
      then (ds8_hex_loop ((length file - header_size) / buf_size - 1) tag (drop header_size file)
            buf_size
          >>= λ out. some (true, some out))
      else some (false, none)
]
