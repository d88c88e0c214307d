-- ===== src/App/Send/Data.antt =====
-- `sendBinFile` and `sendData` (src/tcpclientapp.cpp) put out all their data in frames, and the block
-- of `send_terminate` behind them for every socket.
use ossim_tcp_client.Prelude.{
  ℕ, ◌+◌, ◌-◌, ◌*◌, ◌<◌, ◌≡◌, refl, ◌∙◌, ap, subst, List, ◌++◌, some, Bool, true, false, ℤ, pos,
  negsuc, length, replicate, arith, inl, inr, ◌⊎◌, is_neg, if◌then◌else◌,
}
use ossim_tcp_client.Frames.{FramesOf}
use ossim_tcp_client.Protocol.{ConnectionInfo}
use ossim_tcp_client.Protocol.DataTypes
use ossim_tcp_client.Client.Os.{Os, SendLaws}
use ossim_tcp_client.Client.Monad.{Sys, Returns, Returns-bind, ◌>>=◌, pure}
use ossim_tcp_client.Client.Send.{Block, terminate_block, send_terminate, blocks_loop}
use ossim_tcp_client.Client.Send.Stream.{Broken}
use ossim_tcp_client.Client.Send.Method.{CanSend}
use ossim_tcp_client.Client.Send.Blocks.{Dealt, BlocksPost}
use ossim_tcp_client.Client.Send.TcpIo.{IsBlockSize, new_block-IsFull, blocks_loop-frames}
use ossim_tcp_client.Client.Send.Terminate.{Dealt-append, EachPost, send_terminate-Dealt}
use ossim_tcp_client.Convertors.Hex.{words_bytes}
use ossim_tcp_client.Convertors.Hex.Words.{length-words_bytes}
use ossim_tcp_client.Client.Receive.Frames.{length-terminate_block}
use ossim_tcp_client.App.Send.{bin_send_loop, send_bin, send_data}
use ossim_tcp_client.App.Send.Bin.{BinPost, bin_send_loop-frames}

module _ {W : Type 0} (log : W → ℕ → List ℕ) where
  -- The frames of `bs` went out, and behind them `count` times `block`.
  abbrev pub AllSent : ℕ → List ℕ → List ℕ → ℕ → Sys W → Sys W → Type 0
  AllSent room bs block count s s' =
      (fs : List (List ℕ)) × FramesOf room bs fs × Dealt log s s' (fs ++ replicate count block)

  -- How sending a file ends: with a broken client, or with `true` after all of it.
  abbrev pub SentPost : ℕ → Sys W → List ℕ → List ℕ → Bool → Sys W → Type 0
  SentPost room s bs block r s' =
      Broken s'.client
      ⊎ ((r ≡ true) × AllSent room bs block (length s.client.connection.sockfd_send) s s')

  with_end :
      (room : ℕ) (s s' : Sys W) (bs block : List ℕ) (fs : List (List ℕ))
      → FramesOf room bs fs
      → Dealt log s s' fs
      → (r : ℤ) (s'' : Sys W)
      → EachPost log s' block (length s'.client.connection.sockfd_send) 0 r s''
      → SentPost room s bs block true s''
  with_end room s s' bs block fs fr d r s'' (inl broken) = inl broken
  with_end room s s' bs block fs fr d r s'' (inr (e, d')) = inr (
    refl,
    (
      fs,
      fr,
      Dealt-append log s s' s'' fs _ d (
          subst (λ (socks : List ℕ). Dealt log s' s'' (replicate (length socks) block)) d.sockets
            d'),
    ),
  )

module _ {W : Type 0} (os : Os W) (log : W → ℕ → List ℕ) (laws : SendLaws os log) where
  -- `send_terminate` behind the frames
  then_terminate :
      (fuel room : ℕ) (s s' : Sys W) (bs block : List ℕ) (fs : List (List ℕ))
      → FramesOf room bs fs
      → Dealt log s s' fs
      → s.client.connection_info.exit ≡ false
      → terminate_block s.client.connection_info.tcp_buf_size ≡ some block
      → length block < fuel
      → Returns ((send_terminate os fuel >>= λ bytes. pure true) s') (SentPost log room s bs block)
  then_terminate fuel room s s' bs block fs fr d e t f =
      Returns-bind (send_terminate os fuel) _ s'
        (EachPost log s' block (length s'.client.connection.sockfd_send) 0) _
        (send_terminate-Dealt os log laws fuel block s' d.can_send
          (ap (λ (c : ConnectionInfo). c.exit) d.connection_info ∙ e)
          (ap (λ (c : ConnectionInfo). terminate_block c.tcp_buf_size) d.connection_info ∙ t) f)
        (with_end log room s s' bs block fs fr d)

  after_bin :
      (fuel room : ℕ) (s : Sys W) (bs block : List ℕ)
      → s.client.connection_info.exit ≡ false
      → terminate_block s.client.connection_info.tcp_buf_size ≡ some block
      → length block < fuel
      → (all : Bool) (s' : Sys W) → BinPost os log laws room s bs all s'
      → Returns
          ((if all then (send_terminate os fuel >>= λ bytes. pure true) else pure false) s')
          (SentPost log room s bs block)
  after_bin fuel room s bs block e t f false s' broken = inl broken
  after_bin fuel room s bs block e t f true s' (fs, fr, d) =
      then_terminate fuel room s s' bs block fs fr d e t f

  -- `sendBinFile`, on an open connection without the exit option and with a block size of whole
  -- words from 24 on, ends for every file that is not empty, with fuel above the block size and
  -- its length: it leaves a broken client, or it returns `true` and has dealt out, in turn, frames
  -- that carry exactly the file and behind them the block of `send_terminate` once for every
  -- socket.
  pub send_bin-AllSent :
      (fuel : ℕ) (file block : List ℕ) (s : Sys W)
      → CanSend s.client
      → IsBlockSize s.client.connection_info.tcp_buf_size
      → s.client.connection_info.exit ≡ false
      → terminate_block s.client.connection_info.tcp_buf_size ≡ some block
      → 0 < length file
      → s.client.connection_info.tcp_buf_size + length file < fuel
      → Returns
          (send_bin os fuel file s)
          (SentPost log (s.client.connection_info.tcp_buf_size - 16) s file block)
  unfolding send_bin
  send_bin-AllSent fuel file block s can size e t p f =
      let n : ℕ = s.client.connection_info.tcp_buf_size in
      let (b, made, l) = new_block-IsFull n size in
      let b' : Block = record b { word0 = n - 16; word1 = DataTypes.data_block } in
      rw made (
        Returns-bind (bin_send_loop os fuel file n b') _ s (BinPost os log laws (n - 16) s file) _
          (bin_send_loop-frames os log laws fuel file n b' s can size
            (record { size = omega (arith, size.0); kind = refl; body = l }) p f)
          (after_bin fuel (n - 16) s file block e t
            (omega (arith, length-terminate_block n block size t))))

  after_words :
      (fuel room total : ℕ) (s : Sys W) (bs block : List ℕ)
      → s.client.connection_info.exit ≡ false
      → terminate_block s.client.connection_info.tcp_buf_size ≡ some block
      → length block < fuel
      → (sent : ℤ) (s' : Sys W) → BlocksPost log room s bs total sent s'
      → Returns
          ((if is_neg sent then pure false else (send_terminate os fuel >>= λ bytes. pure true)) s')
          (SentPost log room s bs block)
  after_words fuel room total s bs block e t f (negsuc k) s' (_, broken) = inl broken
  after_words fuel room total s bs block e t f (pos n) s' (_, (fs, fr, d)) =
      then_terminate fuel room s s' bs block fs fr d e t f

  -- `sendData`, on an open connection without the exit option and with a block size of whole words
  -- from 24 on, ends with fuel above the block size and the bytes of its words: it leaves a broken
  -- client, or it returns `true` and has dealt out, in turn, frames that carry exactly the memory
  -- of its words and behind them the block of `send_terminate` once for every socket.
  pub send_data-AllSent :
      (fuel : ℕ) (words block : List ℕ) (s : Sys W)
      → CanSend s.client
      → IsBlockSize s.client.connection_info.tcp_buf_size
      → s.client.connection_info.exit ≡ false
      → terminate_block s.client.connection_info.tcp_buf_size ≡ some block
      → s.client.connection_info.tcp_buf_size + 8 * length words + 1 < fuel
      → Returns
          (send_data os fuel words s)
          (SentPost log (s.client.connection_info.tcp_buf_size - 16) s (words_bytes words) block)
  unfolding send_data
  send_data-AllSent fuel words block s can size e t f =
      let n : ℕ = s.client.connection_info.tcp_buf_size in
      let (b, made, l) = new_block-IsFull n size in
      let b' : Block = record b { word0 = n - 16; word1 = DataTypes.data_block } in
      let bs : List ℕ = words_bytes words in
      let total : length bs ≡ 8 * length words = length-words_bytes words in
      let all : length bs - 0 ≡ length bs = omega arith in
      rw (made, ← total)
        (Returns-bind (blocks_loop os fuel bs (length bs) n b' (n - 16) 0 (length bs)) _ s
          (BlocksPost log (n - 16) s bs (length bs)) _
          (rw all at (
            blocks_loop-frames os log laws fuel bs n 0 b' s can (omega (arith, size.0))
              (omega arith) (omega arith)
              (record { size = omega (arith, size.0); kind = refl; body = l })))
          (after_words fuel (n - 16) (length bs) s bs block e t
            (omega (arith, length-terminate_block n block size t))))
