-- ===== src/App/RoundTrip.antt =====
-- What `sendBinFile` and `sendData` put out, `receiveToBin` writes (src/tcpclientapp.cpp).
pub mod Hex
use ossim_tcp_client.Prelude.{
  sym, drop, ◌/◌, ◌-◌, ℕ, ◌+◌, ◌-◌, ◌*◌, ◌^◌, ◌<◌, ◌≡◌, ◌∙◌, subst, List, some, true, false, length,
  arith, inl, inr,
}
use ossim_tcp_client.Client.Os.{Os, SendLaws, RecvLaws}
use ossim_tcp_client.Client.Monad.{Sys, Returns, Returns-mono, done}
use ossim_tcp_client.Client.Base.{is_zero}
use ossim_tcp_client.Client.Send.{terminate_block}
use ossim_tcp_client.Client.Send.Method.{CanSend}
use ossim_tcp_client.Client.Send.TcpIo.{IsBlockSize}
use ossim_tcp_client.Client.Receive.Method.{CanReceive}
use ossim_tcp_client.Convertors.Hex.{words_bytes}
use ossim_tcp_client.Convertors.Hex.Words.{length-words_bytes}
use mathlib.Core.Option.{some-injective}
use ossim_tcp_client.Convertors.Ds8.{bin_to_ds8, header_size}
use ossim_tcp_client.Convertors.Ds8.Frames.{IsDs8, bin_to_ds8-IsDs8}
use ossim_tcp_client.App.Send.Ds8.{ds8_send_loop-AllSent}
use ossim_tcp_client.App.Send.{ds8_send_loop, send_bin, send_data}
use ossim_tcp_client.App.Send.Data.{AllSent, send_bin-AllSent, send_data-AllSent}
use ossim_tcp_client.App.Receive.{Target, receive_to_bin, receive_to_hex}
use ossim_tcp_client.App.Receive.Hex.{receive_to_hex-frames}
use ossim_tcp_client.Convertors.Print.Lines.{AreWords, hex_lines}
use ossim_tcp_client.App.Receive.Files.{receive_to_bin-frames}
use ossim_tcp_client.App.Linked.{
  Linked, Written, AllSent-Incoming, not_Broken, all_sent, FilePost-Written,
}

module _ {V W : Type 0} (os : Os W) (log : W → ℕ → List ℕ) (send_laws : SendLaws os log)
    (peer : Os V) (inbox : V → ℕ → List ℕ) (recv_laws : RecvLaws peer inbox) where
  receive-AllSent :
      (fuel k : ℕ) (bs block : List ℕ) (s s' : Sys W) (r : Sys V)
      → 0 < k
      → IsBlockSize s.client.connection_info.tcp_buf_size
      → s.client.connection_info.tcp_buf_size < 2 ^ 32
      → terminate_block s.client.connection_info.tcp_buf_size ≡ some block
      → AllSent log (s.client.connection_info.tcp_buf_size - 16) bs block k s s'
      → CanReceive r.client
      → Linked log inbox s s' r
      → s.client.connection_info.tcp_buf_size + length bs + 2 < fuel
      → Returns (receive_to_bin peer fuel Target.created r) (Written log inbox bs)
  receive-AllSent fuel k bs block s s' r q size hi t sent ready h f =
      let (fs, fr, few, (rest, incoming)) =
        AllSent-Incoming log inbox _ k s s' r bs block q (omega (arith, size.0)) sent h in
      Returns-mono _ _ _
        (receive_to_bin-frames peer inbox recv_laws fuel bs fs block rest r ready (rw h.size size)
          (rw h.size hi) (rw h.size fr) (rw h.size t) incoming (omega (arith, h.size, few)))
        (FilePost-Written log inbox _ bs rest)

  receive_hex-AllSent :
      (fuel k : ℕ) (ws block : List ℕ) (s s' : Sys W) (r : Sys V)
      → 0 < k
      → IsBlockSize s.client.connection_info.tcp_buf_size
      → s.client.connection_info.tcp_buf_size < 2 ^ 32
      → terminate_block s.client.connection_info.tcp_buf_size ≡ some block
      → AllSent log (s.client.connection_info.tcp_buf_size - 16) (words_bytes ws) block k s s'
      → AreWords ws
      → CanReceive r.client
      → Linked log inbox s s' r
      → s.client.connection_info.tcp_buf_size + 8 * length ws + 2 < fuel
      → Returns (receive_to_hex peer fuel Target.created r) (Written log inbox (hex_lines false ws))
  receive_hex-AllSent fuel k ws block s s' r q size hi t sent a ready h f =
      let (fs, fr, few, (rest, incoming)) =
        AllSent-Incoming log inbox _ k s s' r (words_bytes ws) block q (omega (arith, size.0)) sent
          h in
      Returns-mono _ _ _
        (receive_to_hex-frames peer inbox recv_laws fuel ws fs block rest r ready (rw h.size size)
          (rw h.size hi) a (rw h.size fr) (rw h.size t) incoming
          (omega (arith, h.size, few, length-words_bytes ws)))
        (FilePost-Written log inbox _ (hex_lines false ws) rest)

  -- When `sendBinFile` of a file that is not empty, on a connection without the exit option and
  -- with a block size of whole words from 24 on, below 2 ^ 32, has returned `true` without an
  -- error, a receiver at the other ends of its sockets, with nothing else under way and the same
  -- turn and block size, ends in `receiveToBin`: it has written exactly this file, or it has
  -- recorded an error. The fuel is above the block size and the length of the file.
  pub send_bin-receive_to_bin :
      (fuel fuel' : ℕ) (file block : List ℕ) (s s' : Sys W) (r : Sys V)
      → CanSend s.client
      → IsBlockSize s.client.connection_info.tcp_buf_size
      → s.client.connection_info.tcp_buf_size < 2 ^ 32
      → s.client.connection_info.exit ≡ false
      → terminate_block s.client.connection_info.tcp_buf_size ≡ some block
      → 0 < length file
      → s.client.connection_info.tcp_buf_size + length file < fuel
      → send_bin os fuel file s ≡ done true s'
      → is_zero s'.client.last_error ≡ true
      → CanReceive r.client
      → Linked log inbox s s' r
      → s.client.connection_info.tcp_buf_size + length file + 2 < fuel'
      → Returns (receive_to_bin peer fuel' Target.created r) (Written log inbox file)
  send_bin-receive_to_bin fuel fuel' file block s s' r can size hi e t p f run fine ready h f' =
      receive-AllSent fuel' (length s.client.connection.sockfd_send) file block s s' r
        (omega (arith, can.in_range)) size hi t
        (all_sent log inbox _ s s' file block fine
          (rw run at (send_bin-AllSent os log send_laws fuel file block s can size e t p f)))
        ready h f'

  -- When `sendData`, also of no words, on a connection without the exit option and with a block
  -- size of whole words from 24 on, below 2 ^ 32, has returned `true` without an error, a receiver
  -- at the other ends of its sockets, with nothing else under way and the same turn and block
  -- size, ends in `receiveToBin`: it has written exactly the memory of the words, or it has
  -- recorded an error. The fuel is above the block size and the bytes of the words.
  pub send_data-receive_to_bin :
      (fuel fuel' : ℕ) (words block : List ℕ) (s s' : Sys W) (r : Sys V)
      → CanSend s.client
      → IsBlockSize s.client.connection_info.tcp_buf_size
      → s.client.connection_info.tcp_buf_size < 2 ^ 32
      → s.client.connection_info.exit ≡ false
      → terminate_block s.client.connection_info.tcp_buf_size ≡ some block
      → s.client.connection_info.tcp_buf_size + 8 * length words + 1 < fuel
      → send_data os fuel words s ≡ done true s'
      → is_zero s'.client.last_error ≡ true
      → CanReceive r.client
      → Linked log inbox s s' r
      → s.client.connection_info.tcp_buf_size + 8 * length words + 2 < fuel'
      → Returns (receive_to_bin peer fuel' Target.created r) (Written log inbox (words_bytes words))
  send_data-receive_to_bin fuel fuel' words block s s' r can size hi e t f run fine ready h f' =
      receive-AllSent fuel' (length s.client.connection.sockfd_send) (words_bytes words) block s s'
        r (omega (arith, can.in_range)) size hi t
        (all_sent log inbox _ s s' (words_bytes words) block fine
          (rw run at (send_data-AllSent os log send_laws fuel words block s can size e t f)))
        ready h (omega (arith, length-words_bytes words))

  -- When `sendData` of 64-bit words, also of none, on a connection without the exit option and with a
  -- block size of whole words from 24 on, below 2 ^ 32, has returned `true` without an error, a receiver
  -- at the other ends of its sockets, with nothing else under way and the same turn and block size, ends
  -- in `receiveToHex`: it has written exactly one line for each word, or it has recorded an error. The
  -- fuel is above the block size and the bytes of the words.
  pub send_data-receive_to_hex :
      (fuel fuel' : ℕ) (words block : List ℕ) (s s' : Sys W) (r : Sys V)
      → CanSend s.client
      → IsBlockSize s.client.connection_info.tcp_buf_size
      → s.client.connection_info.tcp_buf_size < 2 ^ 32
      → s.client.connection_info.exit ≡ false
      → terminate_block s.client.connection_info.tcp_buf_size ≡ some block
      → AreWords words
      → s.client.connection_info.tcp_buf_size + 8 * length words + 1 < fuel
      → send_data os fuel words s ≡ done true s'
      → is_zero s'.client.last_error ≡ true
      → CanReceive r.client
      → Linked log inbox s s' r
      → s.client.connection_info.tcp_buf_size + 8 * length words + 2 < fuel'
      → Returns
          (receive_to_hex peer fuel' Target.created r)
          (Written log inbox (hex_lines false words))
  send_data-receive_to_hex fuel fuel' words block s s' r can size hi e t a f run fine ready h f' =
      receive_hex-AllSent fuel' (length s.client.connection.sockfd_send) words block s s' r
        (omega (arith, can.in_range)) size hi t
        (all_sent log inbox _ s s' (words_bytes words) block fine
          (rw run at (send_data-AllSent os log send_laws fuel words block s can size e t f)))
        a ready h f'

  -- The way of some data that is not empty through a ds8 file: when `file_bin_to_ds8` has written it with
  -- the block size of the connection, of whole words from 24 on, below 2 ^ 32, and the loop of
  -- `sendDS8File` on this file has ended without an error, a receiver at the other ends of its sockets,
  -- with nothing else under way and the same turn and block size, ends in `receiveToBin`: it has written
  -- exactly the data, or it has recorded an error.
  pub ds8_send_loop-receive_to_bin :
      (fuel fuel' : ℕ) (bs out : List ℕ) (s s' : Sys W) (r : Sys V)
      → CanSend s.client
      → IsBlockSize s.client.connection_info.tcp_buf_size
      → s.client.connection_info.tcp_buf_size < 2 ^ 32
      → 0 < length bs
      → s.client.connection_info.tcp_buf_size < fuel
      → bin_to_ds8 bs s.client.connection_info.tcp_buf_size ≡ some out
      → ds8_send_loop os fuel
          ((length out - header_size) / s.client.connection_info.tcp_buf_size)
          (drop header_size out)
          s.client.connection_info.tcp_buf_size
          s
        ≡ done tt s'
      → is_zero s'.client.last_error ≡ true
      → CanReceive r.client
      → Linked log inbox s s' r
      → s.client.connection_info.tcp_buf_size + length bs + 2 < fuel'
      → Returns (receive_to_bin peer fuel' Target.created r) (Written log inbox bs)
  ds8_send_loop-receive_to_bin fuel fuel' bs out s s' r can size hi p f made run fine ready h f' =
      let n : ℕ = s.client.connection_info.tcp_buf_size in
      let (out', made', d') = bin_to_ds8-IsDs8 bs n size in
      let d : IsDs8 n bs out = subst (IsDs8 n bs) (some-injective out' out (sym made' ∙ made)) d' in
      elim (rw run at (ds8_send_loop-AllSent os log send_laws fuel n bs out s can size p f d)) [
        | inl broken ↦ elim (not_Broken log inbox s' fine broken) [ ]
        | inr sent ↦
            receive-AllSent fuel' 1 bs d.ending s s' r (omega arith) size hi d.ends sent ready h f'
      ]
