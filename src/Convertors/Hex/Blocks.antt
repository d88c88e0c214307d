-- ===== src/Convertors/Hex/Blocks.antt =====
-- The blocks of `file_hex_to_ds8` are frames that carry the words of the hex file.
use native.Mathlib.Nat.{mul-add}
use ossim_tcp_client.Prelude.{
  ℕ, zero, suc, ◌+◌, ◌-◌, ◌*◌, ◌/◌, ◌^◌, ◌<◌, ◌≤◌, ◌≡◌, refl, sym, ◌∙◌, List, ◌++◌, Option, some,
  true, ltb, Bool-cases, length, take, drop, replicate, arith, append_assoc, append-nil, inl, inr,
  length-append, length-drop, length-take, length-replicate,
}
use ossim_tcp_client.Bytes.{read_at?}
use ossim_tcp_client.Bytes.Laws.{read_at?-all}
use ossim_tcp_client.Frames.{frame, length-frame}
use ossim_tcp_client.Client.Send.{block_bytes}
use ossim_tcp_client.Client.Send.Blocks.{block_bytes-frame}
use ossim_tcp_client.Client.Send.TcpIo.{IsBlockSize, new_block-IsFull}
use ossim_tcp_client.Convertors.Ds8.{◌>>=◌, write_header, ds8_loop, file_ds8_to_bin}
use ossim_tcp_client.Convertors.Ds8.Frames.{terminate_block-IsBlockSize}
use ossim_tcp_client.Convertors.Ds8.RoundTrip.{IsBody, read_frame, file_ds8_to_bin-IsBody}
use ossim_tcp_client.Convertors.Hex.{
  words_bytes, hex_block, read_words, hex_ds8_loop, hex_to_ds8, file_hex_to_ds8, file_hex_to_bin,
}
use ossim_tcp_client.Convertors.Hex.Words.{
  length-words_bytes, words_bytes-cut, Shortens, WordsOf, has_words, ReadPost, read_words-ReadPost,
  hex_bin_loop-WordsOf,
}

-- Blocks of `n` bytes from which `file_ds8_to_bin` reads `bs`, whatever follows them
record Carries (n : ℕ) (bs blocks : List ℕ) : Type 0 where
  count : ℕ
  size : length blocks ≡ n * count
  reads : (rest : List ℕ) → ds8_loop count (blocks ++ rest) n ≡ some bs

-- The memory of a block, as a frame
pub hex_block-frame :
    (ws : List ℕ) (room word0 : ℕ)
    → length ws ≤ room
    → (length ws ≡ room → word0 ≡ 8 * room)
    → block_bytes (hex_block ws room word0)
      ≡ frame (words_bytes ws) (replicate (8 * (room - length ws)) 0)
unfolding hex_block
hex_block-frame ws room word0 le full =
    block_bytes-frame (words_bytes ws) (replicate (8 * (room - length ws)) 0)
      (hex_block ws room word0)
      (elim (Bool-cases (ltb (length ws) room)) [
        | inl lt ↦ rw lt (sym (length-words_bytes ws))
        | inr ge ↦
            let e : length ws ≡ room = ground arith in
            rw ge (full e ∙ omega (arith, length-words_bytes ws))
      ])
      refl refl

pub length-hex_frame :
    (ws : List ℕ) (n : ℕ)
    → IsBlockSize n
    → length ws ≤ n / 8 - 2
    → length (frame (words_bytes ws) (replicate (8 * (n / 8 - 2 - length ws)) 0)) ≡ n
length-hex_frame ws n (lo, whole) le = omega (
  arith,
  length-frame (words_bytes ws) (replicate (8 * (n / 8 - 2 - length ws)) 0),
  length-words_bytes ws,
  length-replicate {A = ℕ} (8 * (n / 8 - 2 - length ws)) 0,
)

Carries-last :
    (n : ℕ) (bs tail : List ℕ)
    → length (frame bs tail) ≡ n
    → n < 2 ^ 32
    → Carries n bs (frame bs tail)
unfolding ds8_loop
Carries-last n bs tail e hi = record {
  count = 1;
  size = omega arith;
  reads = λ rest. rw (read_frame 0 bs tail rest n e hi, ◌>>=◌, append-nil bs) refl;
}

Carries-more :
    (n : ℕ) (chunk tail bs blocks : List ℕ)
    → length (frame chunk tail) ≡ n
    → n < 2 ^ 32
    → Carries n bs blocks
    → Carries n (chunk ++ bs) (frame chunk tail ++ blocks)
Carries-more n chunk tail bs blocks e hi c = record {
  count = suc c.count;
  size = omega (arith, mul-add n c.count 1, length-append (frame chunk tail) blocks, c.size);
  reads = λ rest.
      rw
        (
          append_assoc (frame chunk tail) blocks rest,
          read_frame c.count chunk tail (blocks ++ rest) n e hi,
          c.reads rest,
          ◌>>=◌,
        )
        refl;
}

-- The write of a block
hex_block-written :
    (vs : List ℕ) (n : ℕ)
    → IsBlockSize n
    → length vs ≤ n / 8 - 2
    → read_at? (block_bytes (hex_block vs (n / 8 - 2) (n - 16))) 0 n
      ≡ some (frame (words_bytes vs) (replicate (8 * (n / 8 - 2 - length vs)) 0))
hex_block-written vs n size le =
    rw (hex_block-frame vs (n / 8 - 2) (n - 16) le (λ e. omega (arith, size.0, size.1))) (
      read_at?-all (frame (words_bytes vs) (replicate (8 * (n / 8 - 2 - length vs)) 0)) n
        (length-hex_frame vs n size le))

module _ (extract : List ℕ → Option (ℕ × List ℕ)) where
  hex_ds8_loop-Carries :
      (fuel : ℕ) (ifs ws : List ℕ) (n : ℕ)
      → IsBlockSize n
      → n < 2 ^ 32
      → WordsOf extract ifs ws
      → length ws < fuel
      → (blocks : List ℕ) × (hex_ds8_loop extract fuel ifs n ≡ some blocks)
        × Carries n (words_bytes ws) blocks
  unfolding hex_ds8_loop ReadPost
  hex_ds8_loop-Carries zero ifs ws n size hi words h = absurd (omega arith)
  hex_ds8_loop-Carries (suc fuel) ifs ws n size hi words h =
      let room : ℕ = n / 8 - 2 in
      elim (read_words-ReadPost extract room ifs ws words) [
        | inl (lt, same, failed) ↦
            let tail : List ℕ = replicate (8 * (room - length ws)) 0 in
            let le : length ws ≤ room = omega arith in
            (
              frame (words_bytes ws) tail,
              rw (failed, hex_ds8_loop, same, hex_block-written ws n size le, ◌>>=◌) refl,
              Carries-last n (words_bytes ws) tail (length-hex_frame ws n size le) hi,
            )
        | inr (le, same, going, rest) ↦
            let vs : List ℕ = take room ws in
            let tail : List ℕ = replicate (8 * (room - length vs)) 0 in
            let len : length vs ≡ room = length-take room ws le in
            let fits : length vs ≤ room = omega arith in
            let (blocks, written, carried) =
              hex_ds8_loop-Carries fuel (read_words extract room ifs).2 (drop room ws) n size hi
                rest (omega (arith, size.0, length-drop room ws)) in
            (
              frame (words_bytes vs) tail ++ blocks,
              rw (going, hex_ds8_loop, same, hex_block-written vs n size fits, ◌>>=◌, written) refl,
              rw (words_bytes-cut room ws) at (
                  Carries-more n (words_bytes vs) tail (words_bytes (drop room ws)) blocks
                    (length-hex_frame vs n size fits) hi carried),
            )
      ]

  Carries-IsBody :
      (n : ℕ) (bs blocks ending : List ℕ)
      → length ending ≡ n
      → Carries n bs blocks
      → IsBody n bs (blocks ++ ending)
  Carries-IsBody n bs blocks ending e c = record {
    count = c.count;
    size = omega (arith, mul-add n c.count 1, length-append blocks ending, c.size);
    reads = c.reads ending;
  }

  -- Where an extraction that succeeds takes some of the file, `file_hex_to_bin` gives the memory of all
  -- words up to the first failure, and `file_hex_to_ds8`, with a block size of whole words from 24 on
  -- that is a 32-bit value, gives a ds8 file from which `file_ds8_to_bin` makes the same.
  pub file_hex_to_ds8-file_hex_to_bin :
      (file : List ℕ) (n : ℕ)
      → Shortens extract
      → IsBlockSize n
      → n < 2 ^ 32
      → (ws : List ℕ) × WordsOf extract file ws
        × (file_hex_to_bin extract (some file) true ≡ some (true, some (words_bytes ws)))
        × ((out : List ℕ) × (file_hex_to_ds8 extract (some file) true n ≡ some (true, some out))
            × (file_ds8_to_bin (some out) true ≡ some (true, some (words_bytes ws))))
  unfolding file_hex_to_ds8 hex_to_ds8 file_hex_to_bin
  file_hex_to_ds8-file_hex_to_bin file n sh size hi =
      let (ws, words, le) = has_words extract (length file + 1) file sh (omega arith) in
      let (b, made, _) = new_block-IsFull n size in
      let (ending, ends, len) = terminate_block-IsBlockSize n size in
      let (blocks, written, carried) =
        hex_ds8_loop-Carries (length file + 1) file ws n size hi words (omega arith) in
      (
        ws,
        words,
        rw (hex_bin_loop-WordsOf extract (length file + 1) file ws words (omega arith), ◌>>=◌) refl,
        (
          write_header n ++ (blocks ++ ending),
          rw (made, ◌>>=◌, written, ends, read_at?-all ending n len) refl,
          file_ds8_to_bin-IsBody n (words_bytes ws) (blocks ++ ending) (omega (arith, size.0)) hi
              (Carries-IsBody n (words_bytes ws) blocks ending len carried),
        ),
      )
