-- ===== src/Convertors/Print/Frames.antt =====
-- Frames of whole words as hex lines: what `file_ds8_to_hex` (src/tcpclientapp.cpp) writes for a file that
-- `file_bin_to_ds8` has made.
use mathlib.Core.Option.{some-injective}
use native.Mathlib.Nat.{mul-add, add-sub_cancel, mul-div_cancel_left}
use ossim_tcp_client.Prelude.{
  ℕ, suc, ◌+◌, ◌-◌, ◌*◌, ◌/◌, ◌%◌, ◌^◌, ◌<◌, ◌≡◌, refl, sym, ◌∙◌, ap, List, [], ◌∷◌, ◌++◌, some,
  true, Bool, length, take, drop, replicate, arith, append_assoc, append-nil, length-append,
  length-take, length-replicate, take-append, drop-append, take-append-drop, drop_all, inl, inr,
}
use ossim_tcp_client.Bytes.{u_int64_to_char8}
use ossim_tcp_client.Bytes.Laws.{length-u_int64_to_char8, write_at?-front}
use ossim_tcp_client.Frames.{frame, FramesOf, length-frame, frame-word0, joined}
use ossim_tcp_client.Protocol.DataTypes
use ossim_tcp_client.Client.Send.TcpIo.{IsBlockSize}
use ossim_tcp_client.Convertors.Ds8.{◌>>=◌, write_header, header_size, file_bin_to_ds8}
use ossim_tcp_client.Convertors.Ds8.Header.{length-write_header, ds8_block_size-write_header}
use ossim_tcp_client.Convertors.Ds8.Frames.{IsDs8, bin_to_ds8-IsDs8, terminate_block-IsBlockSize}
use ossim_tcp_client.Convertors.Ds8.RoundTrip.{length-joined}
use ossim_tcp_client.Convertors.Hex.{words_bytes}
use ossim_tcp_client.Convertors.Hex.Words.{length-words_bytes, words_bytes-cut}
use ossim_tcp_client.Convertors.Print.{print_words, ds8_hex_loop, file_ds8_to_hex, file_bin_to_hex}
use ossim_tcp_client.Convertors.Print.Lines.{
  hex_lines, AreWords, AreWords-drop, AreWords-take, hex_lines-append, print_words-hex_lines,
  file_bin_to_hex-hex_lines,
}

pub print_words-frame :
    (tag : Bool) (ws tail : List ℕ)
    → AreWords ws
    → print_words tag (frame (words_bytes ws) tail) 2 (length ws) ≡ some (hex_lines tag ws)
print_words-frame tag ws tail a =
    let first : List ℕ = u_int64_to_char8 (length (words_bytes ws)) in
    let second : List ℕ = u_int64_to_char8 DataTypes.data_block in
    rw (append_assoc first second (words_bytes ws ++ tail)) at (
      print_words-hex_lines tag (first ++ second) ws tail 2
        (omega (
          arith,
          length-append first second,
          length-u_int64_to_char8 (length (words_bytes ws)),
          length-u_int64_to_char8 DataTypes.data_block,
        ))
        a)

-- A cut of the memory of some words between two of them
pub words_cut :
    (k : ℕ) (ws chunk rest : List ℕ)
    → chunk ++ rest ≡ words_bytes ws
    → length chunk ≡ 8 * k
    → (chunk ≡ words_bytes (take k ws)) × (rest ≡ words_bytes (drop k ws))
words_cut k ws chunk rest e l =
    let total : length chunk + length rest ≡ 8 * length ws =
      sym (length-append chunk rest) ∙ ap length e ∙ length-words_bytes ws in
    let taken : length (take k ws) ≡ k = length-take k ws (omega arith) in
    let front : length (words_bytes (take k ws)) ≡ 8 * k =
      omega (arith, length-words_bytes (take k ws)) in
    let same : words_bytes (take k ws) ++ words_bytes (drop k ws) ≡ chunk ++ rest =
      words_bytes-cut k ws ∙ sym e in
    (
      sym (take-append (8 * k) chunk rest l)
          ∙ ap (take (8 * k)) (sym same)
          ∙ take-append (8 * k) (words_bytes (take k ws)) (words_bytes (drop k ws)) front,
      sym (drop-append (8 * k) chunk rest l)
          ∙ ap (drop (8 * k)) (sym same)
          ∙ drop-append (8 * k) (words_bytes (take k ws)) (words_bytes (drop k ws)) front,
    )

-- One round of the loop, whatever follows the frame's block
print_frame :
    (count : ℕ) (tag : Bool) (ws tail rest : List ℕ) (n : ℕ)
    → length (frame (words_bytes ws) tail) ≡ n
    → n % 8 ≡ 0
    → n < 2 ^ 32
    → AreWords ws
    → ds8_hex_loop (suc count) tag (frame (words_bytes ws) tail ++ rest) n
      ≡ (ds8_hex_loop count tag rest n >>= λ more. some (hex_lines tag ws ++ more))
unfolding ds8_hex_loop
print_frame count tag ws tail rest n e whole h a =
    let f : List ℕ = frame (words_bytes ws) tail in
    let zeros : List ℕ = replicate (8 * (n / 8)) 0 in
    let size : length zeros ≡ n = length-replicate {A = ℕ} (8 * (n / 8)) 0 ∙ omega arith in
    let bytes : length (words_bytes ws) ≡ 8 * length ws = length-words_bytes ws in
    let few : length (words_bytes ws) < 2 ^ 64 =
      omega (arith, length-frame (words_bytes ws) tail) in
    let words : length (words_bytes ws) / 8 ≡ length ws = omega arith in
    rw
      (
        ds8_hex_loop,
        take-append n f rest e,
        drop-append n f rest e,
        write_at?-front zeros f n e (omega arith),
        drop_all n zeros (omega arith),
        append-nil f,
        frame-word0 (words_bytes ws) tail few,
        words,
        print_words-frame tag ws tail a,
        ◌>>=◌,
      )
      refl

ds8_hex_loop-joined :
    (k : ℕ) (tag : Bool) (ws bs rest : List ℕ) (fs : List (List ℕ))
    → FramesOf (8 * k) bs fs
    → bs ≡ words_bytes ws
    → AreWords ws
    → 8 * k + 16 < 2 ^ 32
    → ds8_hex_loop (length fs) tag (joined fs ++ rest) (8 * k + 16) ≡ some (hex_lines tag ws)
unfolding ds8_hex_loop
ds8_hex_loop-joined k tag ws bs rest _ (FramesOf.last {f = f} tail e q) w a h =
    rw
      (
        append-nil f,
        q,
        w,
        print_frame 0 tag ws tail rest (8 * k + 16)
            (omega (arith, length-frame (words_bytes ws) tail, ap length w, length-words_bytes ws))
            (omega arith) h a,
        ◌>>=◌,
        append-nil (hex_lines tag ws),
      )
      refl
ds8_hex_loop-joined k tag ws bs rest _ (FramesOf.more {f = f} {fs = fs} chunk left whole e p q fr) w
      a h =
    let (front, back) = words_cut k ws chunk left (sym whole ∙ w) e in
    let all : hex_lines tag (take k ws) ++ hex_lines tag (drop k ws) ≡ hex_lines tag ws =
      sym (hex_lines-append tag (take k ws) (drop k ws))
      ∙ ap (hex_lines tag) (take-append-drop k ws) in
    rw
      (
        append_assoc f (joined fs) rest,
        q,
        front,
        print_frame (length fs) tag (take k ws) [] (joined fs ++ rest) (8 * k + 16)
            (omega (arith, length-frame (words_bytes (take k ws)) [], ap length front))
            (omega arith) h (AreWords-take k ws a),
        ds8_hex_loop-joined k tag (drop k ws) left rest fs fr back (AreWords-drop k ws a) h,
        ◌>>=◌,
        all,
      )
      refl

-- The blocks of a ds8 file as lines
record HexBody (n : ℕ) (tag : Bool) (ws body : List ℕ) : Type 0 where
  pub count : ℕ
  pub size : length body ≡ n * (count + 1)
  pub prints : ds8_hex_loop count tag body n ≡ some (hex_lines tag ws)

HexBody-joined :
    (n : ℕ) (tag : Bool) (ws ending : List ℕ) (fs : List (List ℕ))
    → IsBlockSize n
    → n < 2 ^ 32
    → AreWords ws
    → length ending ≡ n
    → FramesOf (n - 16) (words_bytes ws) fs
    → HexBody n tag ws (joined fs ++ ending)
HexBody-joined n tag ws ending fs (lo, whole) hi a e frames =
    let room : n - 16 + 16 ≡ n = omega arith in
    let words : n - 16 ≡ 8 * ((n - 16) / 8) = omega arith in
    let block : 8 * ((n - 16) / 8) + 16 ≡ n = omega arith in
    record {
      count = length fs;
      size = omega (
        arith,
        mul-add n (length fs) 1,
        length-append (joined fs) ending,
        rw room at (length-joined (n - 16) (words_bytes ws) fs frames),
      );
      prints = rw block at (
          ds8_hex_loop-joined ((n - 16) / 8) tag ws (words_bytes ws) ending fs (rw words at frames)
            refl a (omega arith));
    }

IsDs8-HexBody :
    (n : ℕ) (tag : Bool) (ws out : List ℕ)
    → IsBlockSize n
    → n < 2 ^ 32
    → AreWords ws
    → (d : IsDs8 n (words_bytes ws) out) → length d.ending ≡ n
    → HexBody n tag ws (d.blocks ++ d.ending)
unfolding ds8_hex_loop
IsDs8-HexBody n tag [] out h hi a d e = elim d.frames [
  | inl (empty, none_written) ↦ record {
    count = 0;
    size = rw (none_written) (omega arith);
    prints = refl;
  }
  | inr (fs, frames, same) ↦ rw same (HexBody-joined n tag [] d.ending fs h hi a e frames)
]
IsDs8-HexBody n tag (w ∷ ws) out h hi a d e = elim d.frames [
  | inl (empty, none_written) ↦ absurd (omega (arith, ap length empty, length-words_bytes (w ∷ ws)))
  | inr (fs, frames, same) ↦ rw same (HexBody-joined n tag (w ∷ ws) d.ending fs h hi a e frames)
]

file_ds8_to_hex-HexBody :
    (n : ℕ) (tag : Bool) (ws body : List ℕ)
    → 0 < n
    → n < 2 ^ 32
    → HexBody n tag ws body
    → file_ds8_to_hex (some (write_header n ++ body)) true tag
      ≡ some (true, some (hex_lines tag ws))
unfolding file_ds8_to_hex
file_ds8_to_hex-HexBody n tag ws body lo hi d =
    let size : length (write_header n ++ body) - header_size ≡ n * (d.count + 1) =
      omega (arith, length-append (write_header n) body, length-write_header n, d.size) in
    rw
      (
        ds8_block_size-write_header n (d.count + 1) body lo hi d.size,
        ◌>>=◌,
        size,
        drop-append header_size (write_header n) body (length-write_header n),
        mul-div_cancel_left (d.count + 1) lo,
        add-sub_cancel d.count 1,
        d.prints,
      )
      refl

-- A file of 64-bit words that was converted to ds8, with a block size of whole words from 24 on that is
-- a 32-bit value, gives `file_ds8_to_hex` the same hex file, tagged or not, as `file_bin_to_hex` makes of
-- the file itself; all three conversions succeed.
pub file_ds8_to_hex-file_bin_to_ds8 :
    (ws : List ℕ) (n : ℕ) (tag : Bool)
    → AreWords ws
    → IsBlockSize n
    → n < 2 ^ 32
    → (out : List ℕ) × (text : List ℕ) × (file_bin_to_ds8 (some (words_bytes ws)) true n
        ≡ some (true, some out))
      × (file_ds8_to_hex (some out) true tag ≡ some (true, some text))
      × (file_bin_to_hex (some (words_bytes ws)) true tag ≡ some (true, some text))
unfolding file_bin_to_ds8
file_ds8_to_hex-file_bin_to_ds8 ws n tag a h hi =
    let (out, written, d) = bin_to_ds8-IsDs8 (words_bytes ws) n h in
    let (ending, ends, size) = terminate_block-IsBlockSize n h in
    let same : ending ≡ d.ending = some-injective _ _ (sym ends ∙ d.ends) in
    (
      out,
      hex_lines tag ws,
      rw (written, ◌>>=◌) refl,
      rw d.layout (
          file_ds8_to_hex-HexBody n tag ws (d.blocks ++ d.ending) (omega (arith, h.0)) hi
            (IsDs8-HexBody n tag ws out h hi a d (rw same at size))),
      file_bin_to_hex-hex_lines tag ws a,
    )
