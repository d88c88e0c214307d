-- ===== src/Convertors/Ds8/RoundTrip.antt =====
-- `file_ds8_to_bin` (src/tcpclientapp.cpp) reads what `file_bin_to_ds8` writes.
use mathlib.Core.Option.{some-injective}
use native.Mathlib.Nat.{mul-add, add-sub_cancel, mul-div_cancel_left}
use ossim_tcp_client.Prelude.{
  ℕ, suc, ◌+◌, ◌-◌, ◌*◌, ◌^◌, ◌≤◌, ◌<◌, ◌≡◌, refl, sym, ◌∙◌, inl, inr, List, [], ◌++◌, some, length,
  replicate, true, arith, append_assoc, append-nil, length-append, take-append, drop-append,
}
use ossim_tcp_client.Frames.{
  frame, FramesOf, length-frame, frame-word0, frame-body, frame-append, joined,
}
use ossim_tcp_client.Client.Send.TcpIo.{IsBlockSize}
use ossim_tcp_client.Convertors.Ds8.{
  ◌>>=◌, header_size, write_header, file_bin_to_ds8, ds8_loop, ds8_to_bin, file_ds8_to_bin,
}
use ossim_tcp_client.Convertors.Ds8.Frames.{IsDs8, bin_to_ds8-IsDs8, terminate_block-IsBlockSize}
use ossim_tcp_client.Convertors.Ds8.Header.{length-write_header, ds8_block_size-write_header}

-- One round of the loop over the frames of a stream, whatever follows the frame's block
pub read_frame :
    (count : ℕ) (chunk tail rest : List ℕ) (n : ℕ)
    → length (frame chunk tail) ≡ n
    → n < 2 ^ 32
    → ds8_loop (suc count) (frame chunk tail ++ rest) n
      ≡ (ds8_loop count rest n >>= λ more. some (chunk ++ more))
unfolding ds8_loop
read_frame count chunk tail rest n e h =
    rw
      (
        take-append n (frame chunk tail) rest e,
        drop-append n (frame chunk tail) rest e,
        frame-append chunk tail (replicate (7 * n) 0),
        frame-word0 chunk (tail ++ replicate (7 * n) 0) (omega (arith, length-frame chunk tail)),
        ◌>>=◌,
        frame-body chunk (tail ++ replicate (7 * n) 0),
      )
      refl

-- All frames of a stream give back its data.
ds8_loop-joined :
    (room : ℕ) (bs rest : List ℕ) (fs : List (List ℕ))
    → FramesOf room bs fs
    → room + 16 < 2 ^ 32
    → ds8_loop (length fs) (joined fs ++ rest) (room + 16) ≡ some bs
unfolding ds8_loop
ds8_loop-joined room bs rest _ (FramesOf.last {f = f} tail e g) h = rw (
  append-nil f,
  g,
  read_frame 0 bs tail rest (room + 16) (omega (arith, length-frame bs tail)) h,
  ◌>>=◌,
  append-nil bs,
)
ds8_loop-joined room bs rest _ (FramesOf.more {f = f} {fs = fs} chunk left whole e p g fr) h = rw (
  append_assoc f (joined fs) rest,
  g,
  read_frame (length fs) chunk [] (joined fs ++ rest) (room + 16)
      (omega (arith, length-frame chunk [])) h,
  ds8_loop-joined room left rest fs fr h,
  ◌>>=◌,
  whole,
)

pub length-joined :
    (room : ℕ) (bs : List ℕ) (fs : List (List ℕ))
    → FramesOf room bs fs
    → length (joined fs) ≡ (room + 16) * length fs
length-joined room bs _ (FramesOf.last {f = f} tail e g) =
    rw (append-nil f, g) (omega (arith, length-frame bs tail))
length-joined room bs _ (FramesOf.more {f = f} {fs = fs} chunk left whole e p g fr) = rw g (
    omega (
      arith,
      length-frame chunk [],
      length-append (frame chunk []) (joined fs),
      length-joined room left fs fr,
    ))

-- The blocks of a ds8 file, with the block that ends it
pub record IsBody (n : ℕ) (bs body : List ℕ) : Type 0 where
  pub count : ℕ
  pub size : length body ≡ n * (count + 1)
  pub reads : ds8_loop count body n ≡ some bs

pub IsBody-joined :
    (n : ℕ) (bs ending : List ℕ) (fs : List (List ℕ))
    → 16 ≤ n
    → n < 2 ^ 32
    → length ending ≡ n
    → FramesOf (n - 16) bs fs
    → IsBody n bs (joined fs ++ ending)
IsBody-joined n bs ending fs lo hi e frames =
    let room : n - 16 + 16 ≡ n = omega arith in
    record {
      count = length fs;
      size = omega (
        arith,
        mul-add n (length fs) 1,
        length-append (joined fs) ending,
        rw room at (length-joined (n - 16) bs fs frames),
      );
      reads = rw room at (ds8_loop-joined (n - 16) bs ending fs frames (omega arith));
    }

IsDs8-IsBody :
    (n : ℕ) (bs out : List ℕ)
    → IsBlockSize n
    → n < 2 ^ 32
    → (d : IsDs8 n bs out) → length d.ending ≡ n
    → IsBody n bs (d.blocks ++ d.ending)
unfolding ds8_loop
IsDs8-IsBody n bs out (lo, whole) hi d e = elim d.frames [
  | inl (empty, none_written) ↦ record {
    count = 0;
    size = rw (none_written) (omega arith);
    reads = rw (empty) refl;
  }
  | inr (fs, frames, same) ↦ rw same (IsBody-joined n bs d.ending fs (omega arith) hi e frames)
]

-- A file of the header and such blocks is read back.
pub file_ds8_to_bin-IsBody :
    (n : ℕ) (bs body : List ℕ)
    → 0 < n
    → n < 2 ^ 32
    → IsBody n bs body
    → file_ds8_to_bin (some (write_header n ++ body)) true ≡ some (true, some bs)
unfolding file_ds8_to_bin ds8_to_bin
file_ds8_to_bin-IsBody n bs body lo hi d =
    let size : length (write_header n ++ body) - header_size ≡ n * (d.count + 1) =
      omega (arith, length-append (write_header n) body, length-write_header n, d.size) in
    rw
      (
        ds8_block_size-write_header n (d.count + 1) body lo hi d.size,
        ◌>>=◌,
        drop-append header_size (write_header n) body (length-write_header n),
        d.size,
        mul-div_cancel_left (d.count + 1) lo,
        add-sub_cancel d.count 1,
        d.reads,
      )
      refl

-- A file that was converted to ds8, with a block size of whole words from 24 on that is a 32-bit
-- value, and back is what it was; both conversions succeed.
pub file_ds8_to_bin-file_bin_to_ds8 :
    (bs : List ℕ) (n : ℕ)
    → IsBlockSize n
    → n < 2 ^ 32
    → (out : List ℕ) × (file_bin_to_ds8 (some bs) true n ≡ some (true, some out))
      × (file_ds8_to_bin (some out) true ≡ some (true, some bs))
unfolding file_bin_to_ds8
file_ds8_to_bin-file_bin_to_ds8 bs n h hi =
    let (out, written, d) = bin_to_ds8-IsDs8 bs n h in
    let (ending, ends, size) = terminate_block-IsBlockSize n h in
    let same : ending ≡ d.ending = some-injective _ _ (sym ends ∙ d.ends) in
    (
      out,
      rw (written, ◌>>=◌) refl,
      rw d.layout (
          file_ds8_to_bin-IsBody n bs (d.blocks ++ d.ending) (omega (arith, h.0)) hi
            (IsDs8-IsBody n bs out h hi d (rw same at size))),
    )
