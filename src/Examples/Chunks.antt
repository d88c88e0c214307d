-- ===== src/Examples/Chunks.antt =====
-- The theorems on SendChunks at concrete inputs: a client with the one socket 5.
use ossim_tcp_client.Prelude.{ℕ, refl, List, [], ◌∷◌, ◌++◌, some, arith}
use ossim_tcp_client.Protocol.{new_connection}
use ossim_tcp_client.Client.Monad.{Client, Sys, Returns, new_client}
use ossim_tcp_client.Client.Chunks.{new_send_chunks, chunks_header, send_header, send_data_block}
use ossim_tcp_client.Client.Chunks.Need.{OneSocket}
use ossim_tcp_client.Client.Chunks.Pieces.{ChunkPost, send_data_block-Piece}
use ossim_tcp_client.Client.Chunks.Whole.{AreChunks, send_all, WholePost, send_all-stream}
use ossim_tcp_client.Examples.Loopback.{Streams, loop_os, stream, loop-SendLaws}

abbrev one_client : Client
one_client = record new_client {
  connection = record new_connection { sockfd = 5 ∷ []; sockfd_send = 5 ∷ []; sockfd_rcv = 5 ∷ [] };
}

abbrev one_sys : Sys Streams
one_sys = record { client = one_client; world = λ u. [] }

one_client-OneSocket : OneSocket 5 one_client
one_client-OneSocket = record {
  can = record { no_error = refl; in_range = omega arith; few = omega arith };
  socks = refl;
  turn = refl;
}

-- Five bytes in two chunks
abbrev two_chunks : List (List ℕ)
two_chunks = (1 ∷ 2 ∷ 3 ∷ []) ∷ (4 ∷ 5 ∷ []) ∷ []

send_data_block-Piece_example :
    Returns
      (send_data_block loop_os
        (send_header loop_os)
        20
        (some (1 ∷ 2 ∷ 3 ∷ []))
        3
        (new_send_chunks 5 128)
        one_sys)
      (ChunkPost loop_os stream loop-SendLaws 5
        (new_send_chunks 5 128)
        one_sys
        (1 ∷ 2 ∷ 3 ∷ [])
        (chunks_header 5 ++ (1 ∷ 2 ∷ 3 ∷ [])))
send_data_block-Piece_example =
    send_data_block-Piece loop_os stream loop-SendLaws 5 20 (1 ∷ 2 ∷ 3 ∷ []) (new_send_chunks 5 128)
      one_sys one_client-OneSocket (omega arith) (omega arith) refl (omega arith) (omega arith)

send_all-stream_example : Returns (send_all loop_os 99 two_chunks (new_send_chunks 5 128) one_sys) (
    WholePost loop_os stream loop-SendLaws 5 one_sys
      (chunks_header 5 ++ (1 ∷ 2 ∷ 3 ∷ 4 ∷ 5 ∷ 0 ∷ 0 ∷ 0 ∷ [])))
send_all-stream_example =
    send_all-stream loop_os stream loop-SendLaws 5 99 3 two_chunks 128 one_sys one_client-OneSocket
      (omega arith)
      (AreChunks.next (omega arith) (omega arith)
        (AreChunks.next (omega arith) (omega arith) AreChunks.none_left))
      (omega arith) (omega arith)
