-- ===== src/App/RoundTrip/Hex.antt =====
-- What `sendHexFile` puts out, `receiveToHex` writes (src/tcpclientapp.cpp).
use ossim_tcp_client.Prelude.{
  ℕ, suc, ◌+◌, ◌-◌, ◌^◌, ◌<◌, ◌≡◌, subst, List, ◌++◌, Option, some, Bool, true, false, length,
  replicate, arith, inl, inr,
}
use ossim_tcp_client.Client.Os.{Os, SendLaws, RecvLaws}
use ossim_tcp_client.Client.Monad.{Sys, Returns, Returns-mono, done}
use ossim_tcp_client.Client.Base.{is_zero}
use ossim_tcp_client.Client.Send.{terminate_block}
use ossim_tcp_client.Client.Send.Method.{CanSend}
use ossim_tcp_client.Client.Send.Blocks.{Dealt}
use ossim_tcp_client.Client.Send.TcpIo.{IsBlockSize}
use ossim_tcp_client.Client.Receive.Method.{CanReceive}
use ossim_tcp_client.Convertors.Print.Lines.{AreWords, hex_lines}
use ossim_tcp_client.App.Send.{send_hex}
use ossim_tcp_client.App.Send.Hex.Words.{AllWords}
use ossim_tcp_client.App.Send.Hex.Sent.{WordsPost, send_hex-WordsPost}
use ossim_tcp_client.App.Receive.{Target, receive_to_hex}
use ossim_tcp_client.App.Receive.Words.{receive_to_hex-WordFrames}
use ossim_tcp_client.App.Linked.{Linked, Written, Linked-Incoming, not_Broken, FilePost-Written}

module _ (extract : List ℕ → Option (ℕ × List ℕ)) (meets_end : List ℕ → Bool) {V W : Type 0}
    (os : Os W) (log : W → ℕ → List ℕ) (send_laws : SendLaws os log) (peer : Os V)
    (inbox : V → ℕ → List ℕ) (recv_laws : RecvLaws peer inbox) where
  receive_hex-WordsPost :
      (fuel : ℕ) (ws block : List ℕ) (s s' : Sys W) (r : Sys V)
      → 0 < length s.client.connection.sockfd_send
      → IsBlockSize s.client.connection_info.tcp_buf_size
      → s.client.connection_info.tcp_buf_size < 2 ^ 32
      → terminate_block s.client.connection_info.tcp_buf_size ≡ some block
      → AreWords ws
      → WordsPost log s.client.connection_info.tcp_buf_size s ws block true s'
      → is_zero s'.client.last_error ≡ true
      → CanReceive r.client
      → Linked log inbox s s' r
      → s.client.connection_info.tcp_buf_size + length ws + 2 < fuel
      → Returns (receive_to_hex peer fuel Target.created r) (Written log inbox (hex_lines false ws))
  receive_hex-WordsPost fuel ws block s s' r p size hi t a (inl broken) fine ready h f =
      elim (not_Broken log inbox s' fine broken) [ ]
  receive_hex-WordsPost fuel ws block s s' r p size hi t a (inr (_, (fs, fr, few, d))) fine ready h
        f =
      let k : ℕ = length s.client.connection.sockfd_send in
      let one : k ≡ suc (k - 1) = omega arith in
      let (rest, incoming) =
        Linked-Incoming log inbox s s' r fs block (k - 1) h
          (subst (λ (m : ℕ). Dealt log s s' (fs ++ replicate m block)) one d) in
      Returns-mono _ _ _
        (receive_to_hex-WordFrames peer inbox recv_laws fuel ws fs block rest r ready
          (rw h.size size) (rw h.size hi) a (rw h.size fr) (rw h.size t) incoming
          (omega (arith, h.size, few)))
        (FilePost-Written log inbox _ (hex_lines false ws) rest)

  -- When `sendHexFile` of a file of 64-bit words, all extracted before its end is met, on a connection
  -- without the exit option and with a block size of whole words from 24 on, below 2 ^ 32, has returned
  -- `true` without an error, a receiver at the other ends of its sockets, with nothing else under way and
  -- the same turn and block size, ends in `receiveToHex`: it has written exactly one line for each word,
  -- or it has recorded an error. The fuel is above the block size and the number of words.
  pub send_hex-receive_to_hex :
      (fuel fuel' : ℕ) (file ws block : List ℕ) (s s' : Sys W) (r : Sys V)
      → CanSend s.client
      → IsBlockSize s.client.connection_info.tcp_buf_size
      → s.client.connection_info.tcp_buf_size < 2 ^ 32
      → s.client.connection_info.exit ≡ false
      → terminate_block s.client.connection_info.tcp_buf_size ≡ some block
      → AllWords extract meets_end file ws
      → AreWords ws
      → s.client.connection_info.tcp_buf_size + length ws + 1 < fuel
      → send_hex extract meets_end os fuel file s ≡ done true s'
      → is_zero s'.client.last_error ≡ true
      → CanReceive r.client
      → Linked log inbox s s' r
      → s.client.connection_info.tcp_buf_size + length ws + 2 < fuel'
      → Returns
          (receive_to_hex peer fuel' Target.created r)
          (Written log inbox (hex_lines false ws))
  send_hex-receive_to_hex fuel fuel' file ws block s s' r can size hi e t words a f run fine ready h
        f' =
      receive_hex-WordsPost fuel' ws block s s' r (omega (arith, can.in_range)) size hi t a
        (rw run at (
          send_hex-WordsPost extract meets_end os log send_laws fuel file ws block s can size e t
            words f))
        fine ready h f'
