-- ===== src/Examples/Client.antt =====
-- The theorems on `TCPClient` at concrete inputs: a client with the sockets 5 and 6 and blocks of 32
-- bytes, on sockets that hand back what they took.
use ossim_tcp_client.Prelude.{
  ℕ, ◌≡◌, refl, List, [], ◌∷◌, ◌+ℤ◌, pos, ◌++◌, some, true, negsuc, ◌==◌, if◌then◌else◌, replicate,
  arith, sym, append-nil,
}
use ossim_tcp_client.Bytes.{u_int64_to_char8}
use ossim_tcp_client.Frames.{frame, dealt, FramesOf}
use ossim_tcp_client.Protocol.{Connection, new_connection, new_connection_info}
use ossim_tcp_client.Protocol.ControlTags
use ossim_tcp_client.Protocol.DataTypes
use ossim_tcp_client.Client.Os.{Os}
use ossim_tcp_client.Client.Monad.{Client, Sys, Run, done, stuck, fault, Returns, new_client}
use ossim_tcp_client.Client.Send.{
  send, send_to_tcp_io, send_each, send_terminate, send_terminate_exit, terminate_block,
}
use ossim_tcp_client.Client.Send.Method.{CanSend, SendPost, send-SendPost}
use ossim_tcp_client.Client.Send.Blocks.{BlocksPost}
use ossim_tcp_client.Client.Send.TcpIo.{send_to_tcp_io-frames}
use ossim_tcp_client.Client.Receive.{receive, receive_data, receive_need, receive_tcp_io}
use ossim_tcp_client.Client.Receive.Method.{CanReceive, ReceivePost, receive-ReceivePost}
use ossim_tcp_client.Client.Receive.TcpIo.{TcpIoPost}
use ossim_tcp_client.Client.Receive.Frames.{receive_tcp_io-frames}
use ossim_tcp_client.Client.Receive.Room.{NoRoom, receive_tcp_io-NoRoom}
use ossim_tcp_client.Client.Errors.{error_adds_up, receive_need_short}
use ossim_tcp_client.Client.Hazards.{receive_ended, receive_data_overflow}
use ossim_tcp_client.Examples.Loopback.{Streams, loop_os, stream, loop-SendLaws, loop-RecvLaws}

abbrev pub connection : Connection
connection = record new_connection {
  sockfd = 5 ∷ 6 ∷ [];
  sockfd_send = 5 ∷ 6 ∷ [];
  sockfd_rcv = 5 ∷ 6 ∷ [];
}

abbrev pub client : Client
client = record new_client {
  connection = connection;
  connection_info = record new_connection_info { tcp_buf_size = 32 };
}

abbrev pub quiet : Streams
quiet u = []

abbrev pub sys : Sys Streams
sys = record { client = client; world = quiet }

-- The state in which a run ends
abbrev pub ended : {A : Type 0} → Run Streams A → Sys Streams
ended (done a s) = s
ended stuck = sys
ended fault = sys

abbrev pub failed : Sys Streams
failed = record { client = record client { last_error = negsuc 0 }; world = quiet }

-- Twenty bytes: a full block and one with four bytes
abbrev pub message : List ℕ
message = replicate 20 7

pub can_send : CanSend client
can_send = record { no_error = refl; in_range = omega arith; few = omega arith }

pub can_receive : CanReceive client
can_receive = record { no_error = refl; in_range = omega arith; few = omega arith }

send-SendPost_example :
    Returns (send loop_os 9 (some (1 ∷ 2 ∷ 3 ∷ [])) 3 sys) (SendPost stream sys 5 (1 ∷ 2 ∷ 3 ∷ []))
send-SendPost_example =
    send-SendPost loop_os stream loop-SendLaws 9 5 (1 ∷ 2 ∷ 3 ∷ []) sys can_send refl (omega arith)

send_to_tcp_io-frames_example :
    Returns (send_to_tcp_io loop_os 99 (some message) 20 sys) (BlocksPost stream 16 sys message 20)
send_to_tcp_io-frames_example =
    send_to_tcp_io-frames loop_os stream loop-SendLaws 99 message sys can_send (omega arith)
      (omega arith)

-- A block of 32 bytes waits on socket 5, with two more bytes behind it.
abbrev pub block : List ℕ
block = replicate 32 1

abbrev waiting : Sys Streams
waiting = record { client = client; world = λ u. if u == 5 then block ++ (8 ∷ 9 ∷ []) else [] }

receive-ReceivePost_example :
    Returns
      (receive loop_os 99 (some (replicate 40 0)) 40 waiting)
      (ReceivePost stream waiting 5 block (8 ∷ 9 ∷ []) (replicate 40 0))
receive-ReceivePost_example =
    receive-ReceivePost loop_os stream loop-RecvLaws 99 5 (replicate 40 0) block (8 ∷ 9 ∷ []) 40
      waiting can_receive refl refl refl (omega arith) (omega arith) (omega arith)

error_adds_up_example :
    (send_terminate loop_os 9 failed ≡ done (negsuc 3) failed)
    × (send_terminate_exit loop_os 9 failed ≡ done (negsuc 3) failed)
    × (send_each loop_os 9 (1 ∷ []) (5 ∷ 6 ∷ 5 ∷ []) (pos 1) failed ≡ done (negsuc 4) failed)
unfolding ◌+ℤ◌
error_adds_up_example =
    error_adds_up loop_os 9 (1 ∷ []) (5 ∷ 6 ∷ 5 ∷ []) (pos 1) failed refl (omega arith)

receive_need_short_example : receive_need loop_os 1000 (some (replicate 16 0)) 16 waiting ≡ stuck
receive_need_short_example =
    receive_need_short loop_os 1000 16 (replicate 16 0) waiting refl (omega arith) (omega arith)

abbrev pub ending : List ℕ
ending =
    u_int64_to_char8 8
    ++ (u_int64_to_char8 DataTypes.service
        ++ (u_int64_to_char8 ControlTags.terminate ++ replicate 8 0))

-- The two frames of `message` and the block that ends the stream, on the sockets 5, 6 and 5.
abbrev pub frames : List (List ℕ)
frames = frame (replicate 16 7) [] ∷ frame (replicate 4 7) (replicate 12 0) ∷ []

abbrev pub arrived : Sys Streams
arrived = record { client = client; world = dealt (5 ∷ 6 ∷ []) 0 (frames ++ (ending ∷ [])) }

pub frames-FramesOf : FramesOf 16 message frames
frames-FramesOf =
    FramesOf.more (replicate 16 7) (replicate 4 7) refl refl (omega arith) refl
      (FramesOf.last (replicate 12 0) refl refl)

pub terminate_block-ending : terminate_block 32 ≡ some ending
unfolding terminate_block
terminate_block-ending = refl

receive_tcp_io-frames_example :
    Returns
      (receive_tcp_io loop_os 99 (some (replicate 52 0)) 52 arrived)
      (TcpIoPost stream 20 (message ++ replicate 32 0) (λ u. []))
receive_tcp_io-frames_example =
    receive_tcp_io-frames loop_os stream loop-RecvLaws 99 (replicate 52 0) ending (λ u. []) arrived
      can_receive (omega arith) frames-FramesOf terminate_block-ending (λ u. sym (append-nil _))
      (omega arith) (omega arith) (omega arith)

-- A buffer of 7 bytes more than the data
receive_tcp_io-NoRoom_example :
    Returns (receive_tcp_io loop_os 99 (some (replicate 27 0)) 27 arrived) NoRoom
receive_tcp_io-NoRoom_example =
    receive_tcp_io-NoRoom loop_os stream loop-RecvLaws 99 (replicate 27 0) ending (λ u. []) arrived
      can_receive (omega arith) frames-FramesOf terminate_block-ending (λ u. sym (append-nil _))
      (omega arith) (omega arith) (omega arith)

-- The peer has closed the stream.
abbrev closed_os : Os Streams
closed_os = record loop_os { recv = λ t n w. (some [], w) }

receive_ended_example : receive closed_os 1000 (some (replicate 32 0)) 32 sys ≡ stuck
receive_ended_example =
    receive_ended closed_os 1000 5 32 (replicate 32 0) sys can_receive refl (λ n w. refl)
      (omega arith) (omega arith)

-- A peer that promises 40 bytes, and sends them.
abbrev greedy_os : Os Streams
greedy_os = record loop_os {
  recv = λ t n w. (
    some (
        if n == 16
        then u_int64_to_char8 40 ++ u_int64_to_char8 DataTypes.data_block
        else replicate n 3),
    w,
  );
}

receive_data_overflow_example : receive_data greedy_os (some (replicate 32 0)) 32 true sys ≡ fault
receive_data_overflow_example =
    receive_data_overflow greedy_os 5 32 40 (replicate 32 0) (replicate 40 3) true quiet quiet sys
      can_receive refl (omega arith) (omega arith) refl refl refl (omega arith) (omega arith)
