-- ===== src/Client/ReceiveChunks/Header.antt =====
-- What the header of 16 bytes means for `ReceiveChunks` and `receive_sync` (src/tcpclient.cpp):
-- `receive_need` gives no less than a block.
use ossim_tcp_client.Prelude.{ℕ, suc, ◌<◌, ◌≡◌, refl, List, true, false, pos, replicate, arith}
use ossim_tcp_client.Protocol.{StatusInfo}
use ossim_tcp_client.Client.Os.{Os}
use ossim_tcp_client.Client.Monad.{Sys, done, stuck, ◌>>=◌}
use ossim_tcp_client.Client.Base.{is_zero}
use ossim_tcp_client.Client.Errors.{receive_need_short, receive_need-refused}
use ossim_tcp_client.Client.ReceiveChunks.{
  make_receive_chunks, receive_header, receive_sync, new_receive_chunks,
}

module _ {W : Type 0} (os : Os W) where
  -- On a client without an error and with blocks of more than 16 bytes, neither the constructor of
  -- `ReceiveChunks` nor `receive_sync` ever comes back, whatever fuel it has.
  pub header_never_comes :
      (fuel : ℕ) (mem : List ℕ) (s : Sys W)
      → is_zero s.client.last_error ≡ true
      → 16 < s.client.connection_info.tcp_buf_size
      → (make_receive_chunks os fuel s ≡ stuck) × (receive_sync os fuel mem s ≡ stuck)
  unfolding make_receive_chunks receive_header receive_sync
  header_never_comes fuel mem s e h =
      let never = receive_need_short os fuel 16 (replicate 16 0) s e (omega arith) h in
      (rw (never, ◌>>=◌) refl, rw (never, ◌>>=◌) refl)

  -- On a client that has recorded an error, the constructor of `ReceiveChunks` makes an object in the
  -- state Error, and `receive_sync` answers 0; neither changes the client.
  pub header_refused :
      (fuel : ℕ) (mem : List ℕ) (s : Sys W)
      → is_zero s.client.last_error ≡ false
      → (make_receive_chunks os (suc fuel) s
          ≡ done (record new_receive_chunks { status = StatusInfo.error }) s)
        × (receive_sync os (suc fuel) mem s ≡ done (pos 0, mem) s)
  unfolding make_receive_chunks receive_header receive_sync
  header_refused fuel mem s e =
      let refused = receive_need-refused os fuel 16 (replicate 16 0) s e in
      (rw (refused, ◌>>=◌) refl, rw (refused, ◌>>=◌) refl)
