-- ===== src/App/Text.antt =====
-- Numbers and memory as text: the templates of src/tcpclientapp.h, and `Version::to_string` and
-- `display_data` of src/tcpclient.cpp, with what they give to the stream. A text is the list of its
-- characters.
use mathlib.Core.List.{reverse}
use ossim_tcp_client.Prelude.{
  ℕ, zero, suc, ◌+◌, ◌*◌, ◌/◌, ◌%◌, ◌^◌, List, [], ◌∷◌, ◌++◌, Option, none, some, Bool, false, ◌&&◌,
  ◌||◌, ◌==◌, ltb, leb, if◌then◌else◌, replicate,
}
use ossim_tcp_client.Convertors.Ds8.{◌>>=◌}
use ossim_tcp_client.Convertors.Print.{hex_digits}

-- A number without a sign as `std::to_string` writes it: its last `fuel` digits, without zeros in front
unfoldable pub decimal : ℕ → ℕ → List ℕ
decimal zero n = []
decimal (suc fuel) n =
    let front = decimal fuel (n / 10) in
    let digit = b'0' + n % 10 in if ltb n 10 then digit ∷ [] else front ++ (digit ∷ [])

-- The 20 digits of a `uint64_t`
abbrev pub to_decimal : ℕ → List ℕ
to_decimal n = decimal 20 n

-- The bytes of a version from number `i` down to 0, `ver.ui8[i]`
unfoldable pub version_bytes : ℕ → ℕ → List ℕ
version_bytes zero ui64 = to_decimal (ui64 % 2 ^ 8)
version_bytes (suc i) ui64 =
    to_decimal (ui64 / 2 ^ (8 * suc i) % 2 ^ 8) ++ (b'.' ∷ version_bytes i ui64)

-- `Version::to_string`
unfoldable pub version_to_string : ℕ → List ℕ
unfolding version_bytes
version_to_string ui64 = version_bytes 3 ui64

-- `num_to_hex_string` of a value of `size` bytes
unfoldable pub num_to_hex_string : ℕ → ℕ → List ℕ
num_to_hex_string zero val = []
num_to_hex_string (suc size) val =
    hex_digits 2 (val / 2 ^ (8 * size) % 2 ^ 8) ++ num_to_hex_string size val

-- `sout.find('.') != std::string::npos`
unfoldable pub has_point : List ℕ → Bool
has_point [] = false
has_point (c ∷ s) = c == b'.' || has_point s

-- The loop of `num_to_string`, on the characters from the last one on
unfoldable pub pop_back : List ℕ → List ℕ
unfolding has_point
pop_back [] = []
pop_back (c ∷ s) =
    let shorter = pop_back s in
    if has_point (c ∷ s) && c == b'0' || c == b'.' then shorter else c ∷ s

-- `num_to_string`; `fixed` is what `std::fixed` writes of a value, with three digits behind the point and
-- a space between groups of three digits. A value is a fraction.
unfoldable pub num_to_string : (ℕ → ℕ → List ℕ) → ℕ → ℕ → List ℕ
unfolding pop_back
num_to_string fixed num den = reverse (pop_back (reverse (fixed num den)))

-- The units of `to_freindly_string`
pub data SizeUnit : Type 0 where
  bit b kb mb gb tb : SizeUnit

abbrev pub unit_name : SizeUnit → List ℕ
unit_name SizeUnit.bit = b'b' ∷ b'i' ∷ b't' ∷ []
unit_name SizeUnit.b = b'B' ∷ []
unit_name SizeUnit.kb = b'K' ∷ b'B' ∷ []
unit_name SizeUnit.mb = b'M' ∷ b'B' ∷ []
unit_name SizeUnit.gb = b'G' ∷ b'B' ∷ []
unit_name SizeUnit.tb = b'T' ∷ b'B' ∷ []

-- The tests of `to_freindly_string` on a fraction: the value that is written, and its unit. The division of
-- a `double` by 1024 is exact.
unfoldable pub friendly_value : ℕ → ℕ → ℕ × ℕ × SizeUnit
friendly_value num den =
    let kb = den * 1024 in
    let mb = kb * 1024 in
    let gb = mb * 1024 in
    let tb = gb * 1024 in
    if ltb den num
    then if ltb kb num
      then if ltb mb num
        then if ltb gb num
          then if ltb tb num then (num, tb, SizeUnit.tb) else (num, gb, SizeUnit.gb)
          else (num, mb, SizeUnit.mb)
        else (num, kb, SizeUnit.kb)
      else (num, den, SizeUnit.b)
    else (num * 8, den, SizeUnit.bit)

-- `to_freindly_string` of a value that is not negative
unfoldable pub to_freindly_string : (ℕ → ℕ → List ℕ) → ℕ → ℕ → List ℕ
unfolding friendly_value num_to_string
to_freindly_string fixed num den =
    let v = friendly_value num den in num_to_string fixed v.0 v.1 ++ (b' ' ∷ unit_name v.2)

-- The bytes of `display_data`, with the line breaks between them: `none` is a byte outside of the memory
unfoldable pub display_bytes : ℕ → List ℕ → ℕ → Option (List ℕ)
display_bytes zero data_in bytes_counter = some []
display_bytes (suc len) [] bytes_counter = none
display_bytes (suc len) (byte ∷ data_in) bytes_counter =
    let ends = leb 8 (bytes_counter + 1) in
    display_bytes len data_in (if ends then 0 else bytes_counter + 1) >>= λ more.
    some (hex_digits 2 byte ++ (if ends then 10 ∷ more else more))

-- `TCPClient::display_data`: the text that it prints
unfoldable pub display_data : List ℕ → ℕ → List ℕ → Option (List ℕ)
unfolding display_bytes
display_data data_in len str_title = display_bytes len data_in 0 >>= λ bytes.
    let line : List ℕ = replicate 16 b'-' ++ (10 ∷ []) in
    let ends : List ℕ = if ltb 0 (len % 8) then 10 ∷ [] else [] in
    some (
      10 ∷ str_title
      ++ (b' ' ∷ b'(' ∷ to_decimal len)
      ++ (b')' ∷ b':' ∷ 10 ∷ line)
      ++ bytes
      ++ ends
      ++ line)
