-- ===== src/App/Names.antt =====
-- Names and files (src/tcpclientapp.h, src/tcpclientapp.cpp): `str_to_upper`, `replace_substr`, the
-- file names of `StdInOutHandler`, and `compareHexFiles`. A string is the list of its characters.
pub mod Compare
use ossim_tcp_client.Prelude.{
  ℕ, zero, suc, ◌+◌, List, [], ◌∷◌, ◌++◌, Option, none, some, Bool, true, false, ◌&&◌, not, ◌==◌,
  if◌then◌else◌, map, length, take, drop,
}
use ossim_tcp_client.Protocol.{str_eq}

-- The types of files
pub data FileType : Type 0 where
  bin hex ds8 mem : FileType

-- `==` on `FileType`
unfoldable pub type_eq : FileType → FileType → Bool
type_eq FileType.bin FileType.bin = true
type_eq FileType.hex FileType.hex = true
type_eq FileType.ds8 FileType.ds8 = true
type_eq FileType.mem FileType.mem = true
type_eq _ _ = false

-- "STDIN", "STDOUT", "stdin.tmp" and "stdout.tmp"
abbrev pub stdin_name : List ℕ
stdin_name = b'S' ∷ b'T' ∷ b'D' ∷ b'I' ∷ b'N' ∷ []

abbrev pub stdout_name : List ℕ
stdout_name = b'S' ∷ b'T' ∷ b'D' ∷ b'O' ∷ b'U' ∷ b'T' ∷ []

abbrev pub stdin_tmp : List ℕ
stdin_tmp = b's' ∷ b't' ∷ b'd' ∷ b'i' ∷ b'n' ∷ b'.' ∷ b't' ∷ b'm' ∷ b'p' ∷ []

abbrev pub stdout_tmp : List ℕ
stdout_tmp = b's' ∷ b't' ∷ b'd' ∷ b'o' ∷ b'u' ∷ b't' ∷ b'.' ∷ b't' ∷ b'm' ∷ b'p' ∷ []

-- `from` stands at the start of `str`.
unfoldable pub starts_with : List ℕ → List ℕ → Bool
starts_with [] str = true
starts_with (a ∷ from) [] = false
starts_with (a ∷ from) (b ∷ str) = a == b && starts_with from str

-- `str.find(from)`
unfoldable pub find : List ℕ → List ℕ → Option ℕ
unfolding starts_with
find [] from = if starts_with from [] then some 0 else none
find (c ∷ str) from =
    let later = find str from in
    if starts_with from (c ∷ str)
    then some 0
    else elim later [ none ↦ none | some i ↦ some (suc i) ]

-- `replace_substr`: its result, and the string
unfoldable pub replace_substr : List ℕ → List ℕ → List ℕ → Bool × List ℕ
unfolding find
replace_substr str from to = elim (find str from) [
  | none ↦ (false, str)
  | some start_pos ↦ (true, take start_pos str ++ (to ++ drop (start_pos + length from) str))
]

module _ (toupper : ℕ → ℕ) where
  unfoldable pub str_to_upper : List ℕ → List ℕ
  str_to_upper str_in = map toupper str_in

  -- The names that the constructor of `StdInOutHandler` puts in place of the standard streams
  unfoldable pub std_in_out : List ℕ → List ℕ → List ℕ × List ℕ
  unfolding str_to_upper
  std_in_out in_file out_file = (
    if str_eq (str_to_upper in_file) stdin_name then stdin_tmp else in_file,
    if str_eq (str_to_upper out_file) stdout_name then stdout_tmp else out_file,
  )

-- `compareHexFiles`; `extract` is `ifs >> std::hex` into a `uint64_t`. A file that is not open gives no
-- word. A round takes a word of each file, so that one for each character is enough; `none` is a run
-- that has used them up.
module _ (extract : List ℕ → Option (ℕ × List ℕ)) where
  unfoldable pub compare_loop : ℕ → List ℕ → List ℕ → Option Bool
  compare_loop zero ifs1 ifs2 = none
  compare_loop (suc fuel) ifs1 ifs2 = elim (extract ifs1) [
    | none ↦ some true
    | some p ↦ elim (extract ifs2) [
      | none ↦ some true
      | some q ↦ elim (p.0 == q.0) [ true ↦ compare_loop fuel p.1 q.1 | false ↦ some false ]
    ]
  ]

  unfoldable pub compare_hex_files : Option (List ℕ) → Option (List ℕ) → Option Bool
  unfolding compare_loop
  compare_hex_files (some f1) (some f2) = compare_loop (suc (length f1)) f1 f2
  compare_hex_files _ _ = some false
