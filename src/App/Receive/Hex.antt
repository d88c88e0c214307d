-- ===== src/App/Receive/Hex.antt =====
-- `receiveToHex` (src/tcpclientapp.cpp) writes one line for each word of the frames that come in.
use ossim_tcp_client.Prelude.{
  ℕ, ◌+◌, ◌-◌, ◌*◌, ◌/◌, ◌%◌, ◌^◌, ◌<◌, ◌≡◌, refl, sym, ◌∙◌, ap, subst, List, [], ◌∷◌, ◌++◌, some,
  false, length, take, drop, arith, append-nil, take-append-drop,
}
use ossim_tcp_client.Frames.{frame, FramesOf, length-frame, frame-word0, frame-word1, joined}
use ossim_tcp_client.Client.Os.{Os, RecvLaws}
use ossim_tcp_client.Client.Monad.{Sys, Returns, Returns-bind}
use ossim_tcp_client.Client.Send.{terminate_block}
use ossim_tcp_client.Client.Send.TcpIo.{IsBlockSize}
use ossim_tcp_client.Client.Receive.{new_buffer}
use ossim_tcp_client.Client.Receive.Method.{CanReceive}
use ossim_tcp_client.Client.Receive.Round.{terminate_block-words}
use ossim_tcp_client.Client.Receive.Frames.{Incoming, length-terminate_block}
use ossim_tcp_client.Convertors.Hex.{words_bytes}
use ossim_tcp_client.Convertors.Hex.Words.{length-words_bytes}
use ossim_tcp_client.Convertors.Print.Lines.{
  hex_lines, AreWords, AreWords-drop, AreWords-take, hex_lines-append,
}
use ossim_tcp_client.Convertors.Print.Frames.{print_words-frame, words_cut}
use ossim_tcp_client.App.Receive.{
  Target, hex_part, ends_stream, receive_to_hex, receive_blocks, new_reception,
}
use ossim_tcp_client.App.Receive.Blocks.{Parts, Ending, BlocksPost, receive_blocks-Parts}
use ossim_tcp_client.App.Receive.Parts.{ends_stream-frame, ends_stream-terminate_block}
use ossim_tcp_client.App.Receive.Files.{FilePost, reception_bytes, start-CanReceiveBlocks}

pub hex_part-frame :
    (ws tail : List ℕ)
    → AreWords ws
    → 8 * length ws + 8 < 2 ^ 64
    → hex_part Target.created (frame (words_bytes ws) tail) ≡ some (hex_lines false ws)
unfolding hex_part
hex_part-frame ws tail a h =
    let size : length (words_bytes ws) ≡ 8 * length ws = length-words_bytes ws in
    let count : (length (words_bytes ws) + 7) % 2 ^ 64 / 8 ≡ length ws = omega arith in
    rw
      (
        hex_part,
        frame-word1 (words_bytes ws) tail,
        frame-word0 (words_bytes ws) tail (omega arith),
        count,
      )
      (print_words-frame false ws tail a)

FramesOf-hex :
    (k : ℕ) (ws bs : List ℕ) (fs : List (List ℕ))
    → FramesOf (8 * k) bs fs
    → bs ≡ words_bytes ws
    → AreWords ws
    → 8 * k < 2 ^ 63
    → Parts (hex_part Target.created) (8 * k + 16) fs (hex_lines false ws)
FramesOf-hex k ws bs _ (FramesOf.last {f = f} tail e q) w a h =
    let size : length f ≡ 8 * k + 16 = rw q (omega (arith, length-frame bs tail)) in
    let goes : ends_stream f ≡ some false = rw q (ends_stream-frame bs tail) in
    let lines : hex_part Target.created f ≡ some (hex_lines false ws) =
      rw (q, w) (hex_part-frame ws tail a (omega (arith, length-words_bytes ws, ap length w))) in
    subst (Parts (hex_part Target.created) (8 * k + 16) (f ∷ [])) (append-nil (hex_lines false ws))
      (Parts.part_of size goes lines Parts.no_parts)
FramesOf-hex k ws bs _ (FramesOf.more {f = f} {fs = fs} chunk left whole e p q fr) w a h =
    let (front, back) = words_cut k ws chunk left (sym whole ∙ w) e in
    let size : length f ≡ 8 * k + 16 = rw q (omega (arith, length-frame chunk [])) in
    let goes : ends_stream f ≡ some false = rw q (ends_stream-frame chunk []) in
    let lines : hex_part Target.created f ≡ some (hex_lines false (take k ws)) =
      rw (q, front)
        (hex_part-frame (take k ws) [] (AreWords-take k ws a)
          (omega (arith, length-words_bytes (take k ws), ap length front))) in
    let all : hex_lines false (take k ws) ++ hex_lines false (drop k ws) ≡ hex_lines false ws =
      sym (hex_lines-append false (take k ws) (drop k ws))
      ∙ ap (hex_lines false) (take-append-drop k ws) in
    subst (Parts (hex_part Target.created) (8 * k + 16) (f ∷ fs)) all (
      Parts.part_of size goes lines
        (FramesOf-hex k (drop k ws) left fs fr back (AreWords-drop k ws a) h))

hex_part-Ending :
    (n : ℕ) (block : List ℕ)
    → IsBlockSize n
    → terminate_block n ≡ some block
    → Ending (hex_part Target.created) n block []
unfolding hex_part
hex_part-Ending n block size e =
    let (p, q, r) = terminate_block-words n block e in
    record {
      size = length-terminate_block n block size e;
      ends = ends_stream-terminate_block n block e;
      writes = rw (hex_part, q) refl;
    }

module _ {W : Type 0} (os : Os W) (inbox : W → ℕ → List ℕ) (laws : RecvLaws os inbox) where
  -- `receiveToHex` on blocks of which it writes some lines
  pub receive_to_hex-Parts :
      (fuel : ℕ) (fs : List (List ℕ)) (lines block : List ℕ) (rest : ℕ → List ℕ) (s : Sys W)
      → CanReceive s.client
      → IsBlockSize s.client.connection_info.tcp_buf_size
      → Parts (hex_part Target.created) s.client.connection_info.tcp_buf_size fs lines
      → terminate_block s.client.connection_info.tcp_buf_size ≡ some block
      → Incoming inbox s (fs ++ (block ∷ [])) rest
      → s.client.connection_info.tcp_buf_size + length fs + 1 < fuel
      → Returns (receive_to_hex os fuel Target.created s) (
          FilePost inbox
            ((length (joined fs) + s.client.connection_info.tcp_buf_size) % 2 ^ 64)
            lines
            rest)
  unfolding receive_to_hex
  receive_to_hex-Parts fuel fs lines block rest s can size parts t h f =
      let n : ℕ = s.client.connection_info.tcp_buf_size in
      Returns-bind
        (receive_blocks os fuel (hex_part Target.created) n (new_buffer n) (new_reception [])) _ s
        (BlocksPost inbox _ _ (lines ++ []) rest) _
        (receive_blocks-Parts os inbox laws (hex_part Target.created) fuel n fs lines block []
          (new_buffer n) rest (new_reception []) s
          (start-CanReceiveBlocks os inbox laws s.client can size) h parts
          (hex_part-Ending n block size t) f (omega arith))
        (λ got s'.
          reception_bytes inbox _ ((length (joined fs) + n) % 2 ^ 64) _ _ _ rest got s'
            (omega arith) (append-nil lines))

  -- `receiveToHex`, on a client that can receive with a block size of whole words from 24 on, below 2 ^
  -- 32, ends when the frames of the memory of some 64-bit words are to come, dealt out in turn and
  -- followed by the block of `send_terminate`, with fuel above the block size and the number of frames:
  -- the client is broken, or the file holds exactly one line for each word, the result counts the bytes
  -- of all these blocks, and what follows them is still to come.
  pub receive_to_hex-frames :
      (fuel : ℕ) (ws : List ℕ) (fs : List (List ℕ)) (block : List ℕ) (rest : ℕ → List ℕ) (s : Sys W)
      → CanReceive s.client
      → IsBlockSize s.client.connection_info.tcp_buf_size
      → s.client.connection_info.tcp_buf_size < 2 ^ 32
      → AreWords ws
      → FramesOf (s.client.connection_info.tcp_buf_size - 16) (words_bytes ws) fs
      → terminate_block s.client.connection_info.tcp_buf_size ≡ some block
      → Incoming inbox s (fs ++ (block ∷ [])) rest
      → s.client.connection_info.tcp_buf_size + length fs + 1 < fuel
      → Returns (receive_to_hex os fuel Target.created s) (
          FilePost inbox
            ((length (joined fs) + s.client.connection_info.tcp_buf_size) % 2 ^ 64)
            (hex_lines false ws)
            rest)
  receive_to_hex-frames fuel ws fs block rest s can size hi a frames t h f =
      let n : ℕ = s.client.connection_info.tcp_buf_size in
      let k : ℕ = (n - 16) / 8 in
      let words : n - 16 ≡ 8 * k = omega (arith, size.0, size.1) in
      let room : 8 * k + 16 ≡ n = omega (arith, size.0) in
      receive_to_hex-Parts fuel fs (hex_lines false ws) block rest s can size
        (rw room at
          (FramesOf-hex k ws (words_bytes ws) fs (rw words at frames) refl a (omega arith)))
        t h f
