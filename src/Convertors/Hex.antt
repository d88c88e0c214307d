-- ===== src/Convertors/Hex.antt =====
-- Hex files (src/tcpclientapp.cpp): `file_hex_to_ds8` and `file_hex_to_bin`. A hex file holds
-- 64-bit words as text; `extract` is `ifs >> std::hex` into a `uint64_t`, which gives the next word and
-- what is left of the file, or fails. A loop takes fuel, one unit a block, and its result is `none`
-- where the fuel is used up, as well as where memory outside of a buffer is used.
pub mod Words
pub mod Blocks
use ossim_tcp_client.Prelude.{
  ℕ, zero, suc, ◌+◌, ◌-◌, ◌*◌, ◌/◌, List, [], ◌∷◌, ◌++◌, Option, none, some, Bool, true, false, ltb,
  if◌then◌else◌, length, replicate,
}
use ossim_tcp_client.Bytes.{u_int64_to_char8, read_at?}
use ossim_tcp_client.Protocol.DataTypes
use ossim_tcp_client.Client.Send.{Block, new_block, block_bytes, terminate_block}
use ossim_tcp_client.Convertors.Ds8.{◌>>=◌, write_header}

-- The memory of an array of words
abbrev pub words_bytes : List ℕ → List ℕ
words_bytes [] = []
words_bytes (w ∷ ws) = u_int64_to_char8 w ++ words_bytes ws

-- The block that `file_hex_to_ds8` writes after it has read `ws` into the `room` words behind the
-- header: the last block counts its bytes and is filled with 0.
unfoldable pub hex_block : List ℕ → ℕ → ℕ → Block
hex_block ws room word0 = record {
  word0 = if ltb (length ws) room then 8 * length ws else word0;
  word1 = DataTypes.data_block;
  body = words_bytes ws ++ replicate (8 * (room - length ws)) 0;
}

module _ (extract : List ℕ → Option (ℕ × List ℕ)) where
  -- The inner loops: at most `count` words, whether the extraction failed, and the rest of the file
  unfoldable pub read_words : ℕ → List ℕ → List ℕ × Bool × List ℕ
  read_words zero ifs = ([], false, ifs)
  read_words (suc count) ifs = elim (extract ifs) [
    | none ↦ ([], true, ifs)
    | some p ↦ let r = read_words count p.1 in (p.0 ∷ r.0, r.1, r.2)
  ]

  -- The loop of `file_hex_to_ds8`: the blocks that it writes
  unfoldable pub hex_ds8_loop : ℕ → List ℕ → ℕ → Option (List ℕ)
  hex_ds8_loop zero ifs buf_size = none
  hex_ds8_loop (suc fuel) ifs buf_size =
      let r = read_words (buf_size / 8 - 2) ifs in
      read_at? (block_bytes (hex_block r.0 (buf_size / 8 - 2) (buf_size - 16))) 0 buf_size
      >>= λ written. elim r.1 [
        | true ↦ some written
        | false ↦ hex_ds8_loop fuel r.2 buf_size >>= λ more. some (written ++ more)
      ]

  -- What `file_hex_to_ds8` writes
  unfoldable pub hex_to_ds8 : List ℕ → ℕ → Option (List ℕ)
  hex_to_ds8 file buf_size = new_block buf_size >>= λ block.
      hex_ds8_loop (length file + 1) file buf_size >>= λ blocks.
      terminate_block buf_size >>= λ ending.
      read_at? ending 0 buf_size >>= λ last. some (write_header buf_size ++ (blocks ++ last))

  -- `file_hex_to_ds8`
  unfoldable pub file_hex_to_ds8 : Option (List ℕ) → Bool → ℕ → Option (Bool × Option (List ℕ))
  file_hex_to_ds8 none creatable buf_size = some (false, none)
  file_hex_to_ds8 (some file) false buf_size = some (false, none)
  file_hex_to_ds8 (some file) true buf_size =
      hex_to_ds8 file buf_size >>= λ out. some (true, some out)

  -- The loop of `file_hex_to_bin`, with a buffer of 128 * 128 bytes
  unfoldable pub hex_bin_loop : ℕ → List ℕ → Option (List ℕ)
  hex_bin_loop zero ifs = none
  hex_bin_loop (suc fuel) ifs =
      let r = read_words (128 * 128 / 8) ifs in
      elim r.1 [
        | true ↦ some (words_bytes r.0)
        | false ↦ hex_bin_loop fuel r.2 >>= λ more. some (words_bytes r.0 ++ more)
      ]

  -- `file_hex_to_bin`
  unfoldable pub file_hex_to_bin : Option (List ℕ) → Bool → Option (Bool × Option (List ℕ))
  file_hex_to_bin none creatable = some (false, none)
  file_hex_to_bin (some file) false = some (false, none)
  file_hex_to_bin (some file) true =
      hex_bin_loop (length file + 1) file >>= λ out. some (true, some out)
