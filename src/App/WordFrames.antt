-- ===== src/App/WordFrames.antt =====
-- Blocks on the wire that carry 64-bit words, whole or not: those of `sendHexFile` (src/tcpclientapp.cpp),
-- whose last block may carry none.
use ossim_tcp_client.Prelude.{ℕ, ◌≡◌, List, [], ◌∷◌, ◌++◌, length}
use ossim_tcp_client.Frames.{frame}
use ossim_tcp_client.Convertors.Hex.{words_bytes}

-- `fs` are frames of `n` bytes, and the words in them are, one behind the other, `ws`.
pub data WordFrames (n : ℕ) : List ℕ → List (List ℕ) → Type 0 where
  no_frames : WordFrames n [] []
  frame_of :
      {f ws : List ℕ} {fs : List (List ℕ)} (vs tail : List ℕ)
      → length f ≡ n
      → f ≡ frame (words_bytes vs) tail
      → WordFrames n ws fs
      → WordFrames n (vs ++ ws) (f ∷ fs)
