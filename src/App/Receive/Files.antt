-- ===== src/App/Receive/Files.antt =====
-- The receivers give back the data of the frames that come in: `receiveToBin` the bytes, `receiveToDs8` a
-- ds8 file of them.
use ossim_tcp_client.Prelude.{
  ℕ, ◌+◌, ◌-◌, ◌*◌, ◌/◌, ◌%◌, ◌^◌, ◌<◌, ◌≡◌, refl, ◌∙◌, List, [], ◌∷◌, ◌++◌, some, true, length,
  arith, append-nil, inl, inr, ◌⊎◌, length-replicate,
}
use ossim_tcp_client.Frames.{FramesOf, joined}
use ossim_tcp_client.Client.Os.{Os, RecvLaws}
use ossim_tcp_client.Client.Monad.{Client, Sys, Returns, Returns-bind}
use ossim_tcp_client.Client.Send.{terminate_block}
use ossim_tcp_client.Client.Send.Stream.{Broken}
use ossim_tcp_client.Client.Send.TcpIo.{IsBlockSize}
use ossim_tcp_client.Client.Receive.{new_buffer}
use ossim_tcp_client.Client.Receive.Method.{CanReceive}
use ossim_tcp_client.Client.Receive.Frames.{Incoming, length-terminate_block}
use ossim_tcp_client.App.Receive.{
  Reception, Target, bin_part, ds8_part, receive_blocks, receive_to_bin, receive_to_ds8,
  new_reception,
}
use ossim_tcp_client.App.Receive.Blocks.{BlocksPost, CanReceiveBlocks, receive_blocks-Parts}
use ossim_tcp_client.App.Receive.Parts.{FramesOf-Parts, bin_part-Ending, ds8_part-Ending}
use ossim_tcp_client.Convertors.Ds8.{write_header, file_ds8_to_bin}
use ossim_tcp_client.Convertors.Ds8.RoundTrip.{IsBody-joined, file_ds8_to_bin-IsBody}

module _ {W : Type 0} (inbox : W → ℕ → List ℕ) where
  -- How a receiver ends: with a broken client, or with its result, `file` written and `rest` still to come.
  abbrev pub FilePost : ℕ → List ℕ → (ℕ → List ℕ) → ℕ × List ℕ → Sys W → Type 0
  FilePost value file rest r s' =
      Broken s'.client ⊎ ((r.0 ≡ value) × (r.1 ≡ file) × ((u : ℕ) → inbox s'.world u ≡ rest u))

  pub reception_bytes :
      (bytes bytes' blocks : ℕ) (file file' : List ℕ) (rest : ℕ → List ℕ) (got : Reception)
      (s : Sys W)
      → bytes ≡ bytes'
      → file ≡ file'
      → BlocksPost inbox bytes blocks file rest got s
      → FilePost bytes' file' rest (got.rcv_bytes, got.file) s
  reception_bytes bytes bytes' blocks file file' rest got s d e (inl broken) = inl broken
  reception_bytes bytes bytes' blocks file file' rest got s d e (inr (p, q, r, i)) =
      inr (p ∙ d, r ∙ e, i)

  -- How `receiveToDs8` ends: with a broken client, or with the number of blocks and a ds8 file of `bs`.
  abbrev pub Ds8Post : ℕ → List ℕ → (ℕ → List ℕ) → ℕ × List ℕ → Sys W → Type 0
  Ds8Post count bs rest r s' =
      Broken s'.client
      ⊎ ((r.0 ≡ count)
          × (file_ds8_to_bin (some r.1) true ≡ some (true, some bs))
          × ((u : ℕ) → inbox s'.world u ≡ rest u))

  reception_ds8 :
      (bytes count count' : ℕ) (file bs : List ℕ) (rest : ℕ → List ℕ) (got : Reception) (s : Sys W)
      → count ≡ count'
      → file_ds8_to_bin (some file) true ≡ some (true, some bs)
      → BlocksPost inbox bytes count file rest got s
      → Ds8Post count' bs rest (got.block_count, got.file) s
  reception_ds8 bytes count count' file bs rest got s e f (inl broken) = inl broken
  reception_ds8 bytes count count' file bs rest got s e f (inr (p, q, r, i)) =
      inr (q ∙ e, rw r f, i)

module _ {W : Type 0} (os : Os W) (inbox : W → ℕ → List ℕ) (laws : RecvLaws os inbox) where
  pub start-CanReceiveBlocks :
      (c : Client)
      → CanReceive c
      → IsBlockSize c.connection_info.tcp_buf_size
      → CanReceiveBlocks os inbox laws c.connection_info.tcp_buf_size
          (new_buffer c.connection_info.tcp_buf_size)
          c
  start-CanReceiveBlocks c can size = record {
    can = can;
    size = refl;
    buffer =
        omega
          (arith, size.0, length-replicate {A = ℕ} (8 * (c.connection_info.tcp_buf_size / 8)) 0);
  }

  -- `receiveToBin`, on a client that can receive with a block size of whole words from 24 on,
  -- below 2 ^ 32, ends when the frames of some data are to come, dealt out in turn and followed by
  -- the block of `send_terminate`, with fuel above the block size and the number of frames: the
  -- client is broken, or the file holds exactly this data, the result counts the bytes of all
  -- these blocks, and what follows them is still to come.
  pub receive_to_bin-frames :
      (fuel : ℕ) (bs : List ℕ) (fs : List (List ℕ)) (block : List ℕ) (rest : ℕ → List ℕ) (s : Sys W)
      → CanReceive s.client
      → IsBlockSize s.client.connection_info.tcp_buf_size
      → s.client.connection_info.tcp_buf_size < 2 ^ 32
      → FramesOf (s.client.connection_info.tcp_buf_size - 16) bs fs
      → terminate_block s.client.connection_info.tcp_buf_size ≡ some block
      → Incoming inbox s (fs ++ (block ∷ [])) rest
      → s.client.connection_info.tcp_buf_size + length fs + 1 < fuel
      → Returns (receive_to_bin os fuel Target.created s) (
          FilePost inbox
            ((length (joined fs) + s.client.connection_info.tcp_buf_size) % 2 ^ 64)
            bs
            rest)
  unfolding receive_to_bin
  receive_to_bin-frames fuel bs fs block rest s can size hi frames t h f =
      let n : ℕ = s.client.connection_info.tcp_buf_size in
      let room : n - 16 + 16 ≡ n = omega (arith, size.0) in
      Returns-bind
        (receive_blocks os fuel (bin_part Target.created) n (new_buffer n) (new_reception [])) _ s
        (BlocksPost inbox _ _ (bs ++ []) rest) _
        (receive_blocks-Parts os inbox laws (bin_part Target.created) fuel n fs bs block []
          (new_buffer n) rest (new_reception []) s (start-CanReceiveBlocks s.client can size) h
          (rw room at (FramesOf-Parts (n - 16) bs fs frames (omega arith))).0
          (bin_part-Ending n block size t) f (omega arith))
        (λ got s'.
          reception_bytes inbox _ ((length (joined fs) + n) % 2 ^ 64) _ _ _ rest got s'
            (omega arith) (append-nil bs))

  -- `receiveToDs8`, on a client that can receive with a block size of whole words from 24 on,
  -- below 2 ^ 32, ends when the frames of some data, fewer than 2 ^ 64, are to come, dealt out in
  -- turn and followed by the block of `send_terminate`, with fuel above the block size and the
  -- number of frames: the client is broken, or the result is the number of frames, the file is one
  -- that `file_ds8_to_bin` turns into exactly this data, and what follows the blocks is still to
  -- come.
  pub receive_to_ds8-frames :
      (fuel : ℕ) (bs : List ℕ) (fs : List (List ℕ)) (block : List ℕ) (rest : ℕ → List ℕ) (s : Sys W)
      → CanReceive s.client
      → IsBlockSize s.client.connection_info.tcp_buf_size
      → s.client.connection_info.tcp_buf_size < 2 ^ 32
      → FramesOf (s.client.connection_info.tcp_buf_size - 16) bs fs
      → terminate_block s.client.connection_info.tcp_buf_size ≡ some block
      → Incoming inbox s (fs ++ (block ∷ [])) rest
      → s.client.connection_info.tcp_buf_size + length fs + 1 < fuel
      → length fs < 2 ^ 64
      → Returns (receive_to_ds8 os fuel Target.created s) (Ds8Post inbox (length fs) bs rest)
  unfolding receive_to_ds8
  receive_to_ds8-frames fuel bs fs block rest s can size hi frames t h f few =
      let n : ℕ = s.client.connection_info.tcp_buf_size in
      let room : n - 16 + 16 ≡ n = omega (arith, size.0) in
      let part = ds8_part Target.created n in
      let len : length block ≡ n = length-terminate_block n block size t in
      Returns-bind (receive_blocks os fuel part n (new_buffer n) (new_reception (write_header n))) _
        s (BlocksPost inbox _ _ (write_header n ++ (joined fs ++ block)) rest) _
        (receive_blocks-Parts os inbox laws part fuel n fs (joined fs) block block (new_buffer n)
          rest (new_reception (write_header n)) s (start-CanReceiveBlocks s.client can size) h
          (rw room at (FramesOf-Parts (n - 16) bs fs frames (omega arith))).1
          (ds8_part-Ending n block size t) f (omega arith))
        (λ got s'. reception_ds8 inbox _ _ (length fs) _ bs rest got s' (omega arith) (
          file_ds8_to_bin-IsBody n bs (joined fs ++ block) (omega (arith, size.0)) hi
            (IsBody-joined n bs block fs (omega (arith, size.0)) hi len frames)))
