-- ===== src/Convertors/Ds8/Frames.antt =====
-- A ds8 file is a stream of frames in a file: the output of `file_bin_to_ds8`.
use ossim_tcp_client.Prelude.{
  ℕ, zero, suc, ◌+◌, ◌-◌, ◌*◌, ◌/◌, ◌%◌, ◌≤◌, ◌<◌, ◌≡◌, refl, sym, inl, inr, List, [], ◌∷◌, ◌++◌,
  some, ◌==◌, length, take, drop, replicate, leb, eq_refl, ◌⊎◌, Bool, true, false, min, arith,
  append_assoc, append-nil, Bool-cases, le→leb, length-append, length-take, length-drop,
  length-replicate, take-append, take-append_ge, drop-append, drop_all, take-append-drop,
}
use ossim_tcp_client.Bytes.{u_int64_to_char8}
use ossim_tcp_client.Bytes.Laws.{
  length-u_int64_to_char8, write_at?-front, read_at?-all, read_at?-all,
}
use ossim_tcp_client.Frames.{frame, FramesOf, length-frame, joined}
use ossim_tcp_client.Protocol.DataTypes
use ossim_tcp_client.Protocol.ControlTags
use ossim_tcp_client.Client.Send.{Block, block_bytes, terminate_block}
use ossim_tcp_client.Client.Send.Blocks.{block_bytes-frame}
use ossim_tcp_client.Client.Send.TcpIo.{IsBlockSize, IsFull, new_block-IsFull}
use ossim_tcp_client.Convertors.Ds8.{◌>>=◌, write_header, fill_block, bin_loop, bin_to_ds8}

fill_block-more :
    (chunk : List ℕ) (n need : ℕ) (b : Block)
    → IsFull b n
    → length chunk + 16 ≡ n
    → fill_block chunk need false b ≡ some (record b { body = chunk })
unfolding fill_block
fill_block-more chunk n need b full e =
    rw
      (
        write_at?-front b.body chunk (length chunk) refl (omega (arith, full.body)),
        ◌>>=◌,
        drop_all (length chunk) b.body (omega (arith, full.body)),
        append-nil chunk,
      )
      refl

-- The rest of the last block, behind the data: what is left of the word, then spaces
last_tail : List ℕ → Block → List ℕ
last_tail chunk b =
    let used = 8 * ((length chunk + 7) / 8) in
    take (used - length chunk) (drop (length chunk) b.body) ++ replicate (length b.body - used) 0x20

fill_block-last :
    (chunk : List ℕ) (n : ℕ) (b : Block)
    → IsFull b n
    → n % 8 ≡ 0
    → length chunk + 16 ≤ n
    → (tail : List ℕ) × (length chunk + length tail + 16 ≡ n)
      × (fill_block chunk (length chunk) true b
          ≡ some (record b { word0 = length chunk; body = chunk ++ tail }))
unfolding fill_block last_tail
fill_block-last chunk n b full e h =
    let used = 8 * ((length chunk + 7) / 8) in
    let old = drop (length chunk) b.body in
    let fits : length chunk ≤ used = omega arith in
    let within : used + 16 ≤ n = omega arith in
    let size : length old + 16 + length chunk ≡ n =
      omega (arith, length-drop (length chunk) b.body, full.body) in
    let same : length (chunk ++ old) ≡ length b.body =
      omega (arith, full.body, length-append chunk old) in
    (
      last_tail chunk b,
      omega (
        arith,
        full.body,
        length-append (take (used - length chunk) old) (replicate (length b.body - used) 0x20),
        length-take (used - length chunk) old (omega arith),
        length-replicate {A = ℕ} (length b.body - used) 0x20,
      ),
      rw
          (
            write_at?-front b.body chunk (length chunk) refl (omega (arith, full.body)),
            ◌>>=◌,
            take-append_ge used chunk old fits,
            append_assoc chunk (take (used - length chunk) old)
                (replicate (length (chunk ++ old) - used) 0x20),
            same,
          )
          refl,
    )

bin_loop-nil : (fuel n : ℕ) (b : Block) → bin_loop fuel [] n b ≡ some []
unfolding bin_loop
bin_loop-nil zero n b = refl
bin_loop-nil (suc fuel) n b = let z : min 0 (n - 16) ≡ 0 = omega arith in rw (z, bin_loop) refl

-- A round of the loop, with its read and its write
bin_loop_round :
    (fuel : ℕ) (chunk rest : List ℕ) (n : ℕ) (last : Bool) (b b' : Block)
    → 0 < length chunk
    → min (length (chunk ++ rest)) (n - 16) ≡ length chunk
    → (length (chunk ++ rest) == length chunk) ≡ last
    → fill_block chunk (length chunk) last b ≡ some b'
    → length (block_bytes b') ≡ n
    → bin_loop (suc fuel) (chunk ++ rest) n b
      ≡ (bin_loop fuel rest n b' >>= λ more. some (block_bytes b' ++ more))
unfolding bin_loop
bin_loop_round fuel chunk rest n last b b' p need is_last filled size =
    let nonempty : (length chunk == 0) ≡ false = ground arith in
    rw
      (
        need,
        nonempty,
        bin_loop,
        need,
        take-append (length chunk) chunk rest refl,
        drop-append (length chunk) chunk rest refl,
        is_last,
        filled,
        ◌>>=◌,
        read_at?-all (block_bytes b') n size,
        ◌>>=◌,
      )
      refl

-- The blocks that the loop writes are frames of the data that is not read yet.
bin_loop-frames :
    (fuel : ℕ) (rest : List ℕ) (n : ℕ) (b : Block)
    → IsBlockSize n
    → IsFull b n
    → 0 < length rest
    → length rest ≤ fuel
    → (fs : List (List ℕ)) × FramesOf (n - 16) rest fs × (bin_loop fuel rest n b ≡ some (joined fs))
bin_loop-frames zero rest n b (lo, whole) full p h = absurd (omega arith)
bin_loop-frames (suc fuel) rest n b (lo, whole) full p h =
    elim (Bool-cases (leb (length rest) (n - 16))) [
      | inl all ↦
          let le : length rest + 16 ≤ n = ground arith in
          let (tail, size, filled) = fill_block-last rest n b full whole le in
          let b' : Block = record b { word0 = length rest; body = rest ++ tail } in
          let framed : block_bytes b' ≡ frame rest tail =
            block_bytes-frame rest tail b' refl full.kind refl in
          let same : (length (rest ++ []) == length rest) ≡ true =
            rw (append-nil rest) (eq_refl (length rest)) in
          let need : min (length (rest ++ [])) (n - 16) ≡ length rest =
            rw (append-nil rest) (ground arith) in
          let round =
            bin_loop_round fuel rest [] n true b b' p need same filled
              (rw framed (omega (arith, length-frame rest tail))) in
          (
            frame rest tail ∷ [],
            FramesOf.last tail (omega arith) refl,
            rw (append-nil rest, bin_loop-nil fuel n b', ◌>>=◌, framed) at round,
          )
      | inr left ↦
          let gt : n < length rest + 16 = ground arith in
          let room = n - 16 in
          let chunk = take room rest in
          let more = drop room rest in
          let len : length chunk ≡ room = length-take room rest (omega arith) in
          let len' : length more ≡ length rest - room = length-drop room rest in
          let b' : Block = record b { body = chunk } in
          let framed : block_bytes b' ≡ frame chunk [] =
            block_bytes-frame chunk [] b' (omega (arith, full.size)) full.kind
              (sym (append-nil chunk)) in
          let cut : chunk ++ more ≡ rest = take-append-drop room rest in
          let need : min (length (chunk ++ more)) (n - 16) ≡ length chunk = rw cut (omega arith) in
          let other : (length (chunk ++ more) == length chunk) ≡ false = rw cut (ground arith) in
          let round =
            bin_loop_round fuel chunk more n false b b' (omega arith) need other
              (fill_block-more chunk n (length chunk) b full (omega arith))
              (rw framed (omega (arith, length-frame chunk []))) in
          let (fs, frames, written) =
            bin_loop-frames fuel more n b' (lo, whole)
              (record { size = full.size; kind = full.kind; body = omega arith }) (omega arith)
              (omega arith) in
          (
            frame chunk [] ∷ fs,
            FramesOf.more chunk more (sym cut) len (omega arith) refl frames,
            rw (cut, written, ◌>>=◌, framed) at round,
          )
    ]

-- What `file_bin_to_ds8` writes for a file of `bs`
pub record IsDs8 (n : ℕ) (bs out : List ℕ) : Type 0 where
  pub blocks : List ℕ
  pub ending : List ℕ
  pub layout : out ≡ write_header n ++ (blocks ++ ending)
  pub ends : terminate_block n ≡ some ending
  pub frames :
      ((bs ≡ []) × (blocks ≡ []))
      ⊎ ((fs : List (List ℕ)) × FramesOf (n - 16) bs fs × (blocks ≡ joined fs))

pub terminate_block-IsBlockSize :
    (n : ℕ)
    → IsBlockSize n
    → (ending : List ℕ) × (terminate_block n ≡ some ending) × (length ending ≡ n)
unfolding terminate_block
terminate_block-IsBlockSize n (lo, whole) =
    let pad : List ℕ = replicate (8 * (n / 8) - 24) 0 in
    (
      u_int64_to_char8 8
          ++ (u_int64_to_char8 DataTypes.service
              ++ (u_int64_to_char8 ControlTags.terminate ++ pad)),
      rw (le→leb 3 (n / 8) (omega arith)) refl,
      omega (
        arith,
        length-append (u_int64_to_char8 8)
            (u_int64_to_char8 DataTypes.service ++ (u_int64_to_char8 ControlTags.terminate ++ pad)),
        length-append (u_int64_to_char8 DataTypes.service)
            (u_int64_to_char8 ControlTags.terminate ++ pad),
        length-append (u_int64_to_char8 ControlTags.terminate) pad,
        length-u_int64_to_char8 8,
        length-u_int64_to_char8 DataTypes.service,
        length-u_int64_to_char8 ControlTags.terminate,
        length-replicate {A = ℕ} (8 * (n / 8) - 24) 0,
      ),
    )

bin_loop-blocks :
    (bs : List ℕ) (n : ℕ) (b : Block)
    → IsBlockSize n
    → IsFull b n
    → (blocks : List ℕ) × (bin_loop (length bs) bs n b ≡ some blocks)
      × (((bs ≡ []) × (blocks ≡ []))
          ⊎ ((fs : List (List ℕ)) × FramesOf (n - 16) bs fs × (blocks ≡ joined fs)))
bin_loop-blocks [] n b h full = ([], bin_loop-nil 0 n b, inl (refl, refl))
bin_loop-blocks (x ∷ xs) n b h full =
    let (fs, frames, e) =
      bin_loop-frames (length (x ∷ xs)) (x ∷ xs) n b h full (omega arith) (omega arith) in
    (joined fs, e, inr (fs, frames, refl))

-- With a block size of whole words from 24 on the output of `file_bin_to_ds8` is the header, the frames that carry the file's bytes, and the block
-- that ends a stream.
pub bin_to_ds8-IsDs8 :
    (bs : List ℕ) (n : ℕ)
    → IsBlockSize n
    → (out : List ℕ) × (bin_to_ds8 bs n ≡ some out) × IsDs8 n bs out
unfolding bin_to_ds8
bin_to_ds8-IsDs8 bs n h =
    let (b, made, size) = new_block-IsFull n h in
    let b' : Block = record b { word0 = n - 16; word1 = DataTypes.data_block } in
    let (ending, ends, len) = terminate_block-IsBlockSize n h in
    let (blocks, written, frames) =
      bin_loop-blocks bs n b' h (record { size = omega arith; kind = refl; body = size }) in
    (
      write_header n ++ (blocks ++ ending),
      rw (made, ◌>>=◌, written, ends, read_at?-all ending n len) refl,
      record { blocks = blocks; ending = ending; layout = refl; ends = ends; frames = frames },
    )
