-- ===== src/Convertors/Ds8.antt =====
-- The ds8 file type (src/tcpclientapp.cpp): its header, `file_bin_to_ds8`, `file_ds8_to_bin` and
-- `normalizeBufSize`. A file is the list of its bytes, and an input that cannot be opened is `none`. An
-- output file that was opened takes every write. The result of a conversion is what it returns, and
-- the output file if it was created; it is `none` where memory outside of a buffer is used, or where
-- a number is divided by 0.
pub mod Header
pub mod Frames
pub mod RoundTrip
use ossim_tcp_client.Prelude.{
  ℕ, zero, suc, ◌+◌, ◌-◌, ◌*◌, ◌/◌, ◌%◌, ◌^◌, min, max, List, [], ◌∷◌, ◌++◌, Option, none, some,
  Bool, true, false, ◌&&◌, ◌==◌, ltb, leb, if◌then◌else◌, length, take, drop, replicate,
}
use ossim_tcp_client.Bytes.{le_bytes, of_le, word_at?, read_at?, write_at?}
use ossim_tcp_client.Protocol.{str_eq}
use ossim_tcp_client.Protocol.DataTypes
use ossim_tcp_client.Client.Send.{Block, new_block, block_bytes, terminate_block}

infixl 5 ◌>>=◌
abbrev pub ◌>>=◌ : {A B : Type 0} → Option A → (A → Option B) → Option B
none >>= f = none
some a >>= f = f a

-- `DS8_HEADER_TITLE` with the 0 behind it: "DS8 binary file"
abbrev pub ds8_header_title : List ℕ
ds8_header_title =
    b'D' ∷ b'S' ∷ b'8' ∷ b' ' ∷ b'b' ∷ b'i' ∷ b'n' ∷ b'a' ∷ b'r' ∷ b'y' ∷ b' ' ∷ b'f' ∷ b'i' ∷ b'l'
    ∷ b'e' ∷ 0 ∷ []

-- `ds8binHeader::size`
abbrev pub header_size : ℕ
header_size = 20

-- `ds8binHeader::write`: the bytes that it writes
unfoldable pub write_header : ℕ → List ℕ
write_header block_size = ds8_header_title ++ le_bytes 4 block_size

-- `ds8binHeader::read`: the block size, or `none` where the title is another one. `strcmp` stops at
-- the 0 of the title.
unfoldable pub read_header : List ℕ → Option ℕ
read_header file =
    if str_eq (take 16 file) ds8_header_title then some (of_le (take 4 (drop 16 file))) else none

-- A round of `file_bin_to_ds8` up to its write: `need` bytes are read into the block, and in the last
-- block the words behind them are filled with spaces.
unfoldable pub fill_block : List ℕ → ℕ → Bool → Block → Option Block
fill_block chunk need last block = write_at? block.body 0 chunk >>= λ body. some (
    if last
    then record block {
      word0 = need;
      body =
          take (8 * ((need + 7) / 8)) body ++ replicate (length body - 8 * ((need + 7) / 8)) 0x20;
    }
    else record block { body = body })

-- The loop of `file_bin_to_ds8`, on what of the file is not read yet: the blocks that it writes.
unfoldable pub bin_loop : ℕ → List ℕ → ℕ → Block → Option (List ℕ)
unfolding fill_block
bin_loop zero rest buf_size block = if length rest == 0 then some [] else none
bin_loop (suc fuel) rest buf_size block =
    let need = min (length rest) (buf_size - 16) in
    elim (need == 0) [
      | true ↦ some []
      | false ↦ fill_block (take need rest) need (length rest == need) block >>= λ block'.
          read_at? (block_bytes block') 0 buf_size >>= λ written.
          bin_loop fuel (drop need rest) buf_size block' >>= λ more. some (written ++ more)
    ]

-- What `file_bin_to_ds8` writes for the bytes of a file
unfoldable pub bin_to_ds8 : List ℕ → ℕ → Option (List ℕ)
bin_to_ds8 file buf_size = new_block buf_size >>= λ block.
    bin_loop (length file) file buf_size
      (record block { word0 = buf_size - 16; word1 = DataTypes.data_block })
    >>= λ blocks. terminate_block buf_size >>= λ ending.
        read_at? ending 0 buf_size >>= λ last. some (write_header buf_size ++ (blocks ++ last))

-- `file_bin_to_ds8`
unfoldable pub file_bin_to_ds8 : Option (List ℕ) → Bool → ℕ → Option (Bool × Option (List ℕ))
file_bin_to_ds8 none creatable buf_size = some (false, none)
file_bin_to_ds8 (some file) false buf_size = some (false, none)
file_bin_to_ds8 (some file) true buf_size =
    bin_to_ds8 file buf_size >>= λ out. some (true, some out)

-- The loop of `file_ds8_to_bin` over `count` blocks: the vector is eight times as long as a block.
unfoldable pub ds8_loop : ℕ → List ℕ → ℕ → Option (List ℕ)
ds8_loop zero blocks buf_size = some []
ds8_loop (suc count) blocks buf_size =
    let mem = take buf_size blocks ++ replicate (7 * buf_size) 0 in
    word_at? mem 0 >>= λ size. read_at? mem 16 size >>= λ written.
    ds8_loop count (drop buf_size blocks) buf_size >>= λ more. some (written ++ more)

-- The tests of `file_ds8_to_bin`, `file_ds8_to_hex` and `sendDS8File` on a file: its block size, or
-- `none` where the file is refused. A block size of 0 is a division by 0.
unfoldable pub ds8_block_size : List ℕ → Option (Option ℕ)
ds8_block_size file = if ltb (length file) header_size then some none else elim (read_header file) [
  | none ↦ some none
  | some buf_size ↦
      if buf_size == 0
      then none
      else if (length file - header_size) % buf_size == 0
      then some (some buf_size)
      else some none
]

-- What `file_ds8_to_bin` writes for the blocks behind a header: the last one is left out.
unfoldable pub ds8_to_bin : List ℕ → ℕ → Option (List ℕ)
ds8_to_bin blocks buf_size = ds8_loop (length blocks / buf_size - 1) blocks buf_size

-- `file_ds8_to_bin`
unfoldable pub file_ds8_to_bin : Option (List ℕ) → Bool → Option (Bool × Option (List ℕ))
file_ds8_to_bin none creatable = some (false, none)
file_ds8_to_bin (some file) creatable = ds8_block_size file >>= λ size?. elim size? [
  | none ↦ some (false, none)
  | some buf_size ↦
      if creatable
      then (ds8_to_bin (drop header_size file) buf_size >>= λ out. some (true, some out))
      else some (false, none)
]

-- `normalizeBufSize`
unfoldable pub normalize_buf_size : ℕ → ℕ
normalize_buf_size block_size =
    let buf_size = min 65536 (max 128 block_size) in
    let mod128 = buf_size % 128 in if ltb 0 mod128 then buf_size + (128 - mod128) else buf_size
