-- ===== src/App/Receive/Words.antt =====
-- `receiveToHex` (src/tcpclientapp.cpp) on blocks that carry words, the last of them perhaps none.
use ossim_tcp_client.Prelude.{
  ℕ, ◌+◌, ◌*◌, ◌%◌, ◌^◌, ◌<◌, ◌≡◌, refl, sym, ap, subst, List, [], ◌∷◌, ◌++◌, some, false, length,
  arith, take-append, drop-append,
}
use ossim_tcp_client.Frames.{length-frame, joined}
use ossim_tcp_client.Client.Os.{Os, RecvLaws}
use ossim_tcp_client.Client.Monad.{Sys, Returns}
use ossim_tcp_client.Client.Send.{terminate_block}
use ossim_tcp_client.Client.Send.TcpIo.{IsBlockSize}
use ossim_tcp_client.Client.Receive.Method.{CanReceive}
use ossim_tcp_client.Client.Receive.Frames.{Incoming}
use ossim_tcp_client.Convertors.Hex.{words_bytes}
use ossim_tcp_client.Convertors.Hex.Words.{length-words_bytes}
use ossim_tcp_client.Convertors.Print.Lines.{
  hex_lines, AreWords, AreWords-take, AreWords-drop, hex_lines-append,
}
use ossim_tcp_client.App.WordFrames.{WordFrames}
use ossim_tcp_client.App.Receive.{Target, hex_part, ends_stream, receive_to_hex}
use ossim_tcp_client.App.Receive.Blocks.{Parts}
use ossim_tcp_client.App.Receive.Parts.{ends_stream-frame}
use ossim_tcp_client.App.Receive.Files.{FilePost}
use ossim_tcp_client.App.Receive.Hex.{hex_part-frame, receive_to_hex-Parts}

WordFrames-hex :
    (n : ℕ) (ws : List ℕ) (fs : List (List ℕ))
    → WordFrames n ws fs
    → AreWords ws
    → n < 2 ^ 32
    → Parts (hex_part Target.created) n fs (hex_lines false ws)
WordFrames-hex n _ _ WordFrames.no_frames a h = Parts.no_parts
WordFrames-hex n _ _ (WordFrames.frame_of {f = f} {ws = ws} {fs = fs} vs tail l q fr) a h =
    let front : AreWords vs =
      rw (take-append (length vs) vs ws refl) at (AreWords-take (length vs) (vs ++ ws) a) in
    let back : AreWords ws =
      rw (drop-append (length vs) vs ws refl) at (AreWords-drop (length vs) (vs ++ ws) a) in
    let goes : ends_stream f ≡ some false = rw q (ends_stream-frame (words_bytes vs) tail) in
    let few : 8 * length vs + 8 < 2 ^ 64 =
      omega (arith, length-frame (words_bytes vs) tail, length-words_bytes vs, ap length q) in
    let lines : hex_part Target.created f ≡ some (hex_lines false vs) =
      rw q (hex_part-frame vs tail front few) in
    subst (Parts (hex_part Target.created) n (f ∷ fs)) (sym (hex_lines-append false vs ws))
      (Parts.part_of l goes lines (WordFrames-hex n ws fs fr back h))

module _ {W : Type 0} (os : Os W) (inbox : W → ℕ → List ℕ) (laws : RecvLaws os inbox) where
  -- `receiveToHex` writes one line for each word of such blocks.
  pub receive_to_hex-WordFrames :
      (fuel : ℕ) (ws : List ℕ) (fs : List (List ℕ)) (block : List ℕ) (rest : ℕ → List ℕ) (s : Sys W)
      → CanReceive s.client
      → IsBlockSize s.client.connection_info.tcp_buf_size
      → s.client.connection_info.tcp_buf_size < 2 ^ 32
      → AreWords ws
      → WordFrames s.client.connection_info.tcp_buf_size ws fs
      → terminate_block s.client.connection_info.tcp_buf_size ≡ some block
      → Incoming inbox s (fs ++ (block ∷ [])) rest
      → s.client.connection_info.tcp_buf_size + length fs + 1 < fuel
      → Returns (receive_to_hex os fuel Target.created s) (
          FilePost inbox
            ((length (joined fs) + s.client.connection_info.tcp_buf_size) % 2 ^ 64)
            (hex_lines false ws)
            rest)
  receive_to_hex-WordFrames fuel ws fs block rest s can size hi a frames t h f =
      receive_to_hex-Parts os inbox laws fuel fs (hex_lines false ws) block rest s can size
        (WordFrames-hex s.client.connection_info.tcp_buf_size ws fs frames a hi) t h f
