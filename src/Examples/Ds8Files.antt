-- ===== src/Examples/Ds8Files.antt =====
-- The way of twenty bytes through a ds8 file: written, sent and received.
use ossim_tcp_client.Prelude.{
  ℕ, ◌-◌, ◌/◌, ◌≡◌, refl, List, [], Option, none, some, true, length, drop, arith,
}
use ossim_tcp_client.Client.Monad.{Sys, done, Returns}
use ossim_tcp_client.Client.Base.{is_zero, get_error, sleep_ms}
use ossim_tcp_client.Client.Send.{
  send, send_loop, send_rest, send_finish, take_send_socket, new_block, block_bytes,
  terminate_block,
}
use ossim_tcp_client.Bytes.{read_at?, write_at?, u_int64_to_char8, le_bytes}
use ossim_tcp_client.Convertors.Ds8.{bin_to_ds8, bin_loop, fill_block, write_header, header_size}
use ossim_tcp_client.App.Send.{ds8_send_loop}
use ossim_tcp_client.App.Receive.{Target, receive_to_bin}
use ossim_tcp_client.App.Linked.{Linked, Written}
use ossim_tcp_client.App.RoundTrip.{ds8_send_loop-receive_to_bin}
use ossim_tcp_client.Examples.Loopback.{Streams, loop_os, stream, loop-SendLaws, loop-RecvLaws}
use ossim_tcp_client.Examples.Client.{ended, client, sys, message, can_send, can_receive}

abbrev written : Option (List ℕ) → List ℕ
written none = []
written (some out) = out

abbrev ds8_file : List ℕ
ds8_file = written (bin_to_ds8 message 32)

writes : bin_to_ds8 message 32 ≡ some ds8_file
unfolding bin_to_ds8 bin_loop fill_block write_header new_block block_bytes terminate_block read_at?
    write_at? u_int64_to_char8 le_bytes
writes = refl

abbrev blocks_sent : Sys Streams
blocks_sent = ended (
    ds8_send_loop loop_os 99 ((length ds8_file - header_size) / 32) (drop header_size ds8_file) 32
      sys)

sends_blocks :
    (ds8_send_loop loop_os 99
        ((length ds8_file - header_size) / 32)
        (drop header_size ds8_file)
        32
        sys
      ≡ done tt blocks_sent)
    × (is_zero blocks_sent.client.last_error ≡ true)
unfolding ds8_send_loop send send_loop send_rest send_finish take_send_socket sleep_ms get_error
    bin_to_ds8 bin_loop fill_block write_header new_block block_bytes terminate_block read_at?
    write_at? u_int64_to_char8 le_bytes
sends_blocks = (refl, refl)

abbrev blocks_peer : Sys Streams
blocks_peer = record { client = client; world = λ u. blocks_sent.world u }

blocks_sent-Linked : Linked stream stream sys blocks_sent blocks_peer
blocks_sent-Linked = record {
  quiet = λ u. refl;
  streams = λ u. refl;
  sockets = refl;
  turn = refl;
  size = refl;
}

ds8_send_loop-receive_to_bin_example :
    Returns (receive_to_bin loop_os 99 Target.created blocks_peer) (Written stream stream message)
ds8_send_loop-receive_to_bin_example =
    ds8_send_loop-receive_to_bin loop_os stream loop-SendLaws loop_os stream loop-RecvLaws 99 99
      message ds8_file sys blocks_sent blocks_peer can_send (omega arith) (omega arith)
      (omega arith) (omega arith) writes sends_blocks.0 sends_blocks.1 can_receive
      blocks_sent-Linked (omega arith)
