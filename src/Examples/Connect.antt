-- ===== src/Examples/Connect.antt =====
-- The opening of a connection at concrete inputs: a system whose server never answers, and one whose
-- server asks for one duplex socket and blocks of 64 bytes.
use ossim_tcp_client.Prelude.{
  ℕ, ◌≡◌, refl, [], ◌∷◌, ◌++◌, List, Bool, none, some, true, false, negsuc, pos, ◌==◌,
  if◌then◌else◌, to_int, ◌+ℤ◌,
}
use ossim_tcp_client.Bytes.{u_int64_to_char8, le_bytes, word_at?, of_le, write_at?}
use ossim_tcp_client.Protocol.ControlTags
use ossim_tcp_client.Protocol.DataTypes
use ossim_tcp_client.Client.Os.{Os}
use ossim_tcp_client.Client.Monad.{Sys, Run, done, stuck, fault, Returns, Ends, new_client}
use ossim_tcp_client.Client.Send.{send}
use ossim_tcp_client.Client.Send.Method.{CanSend}
use ossim_tcp_client.Client.Receive.{receive}
use ossim_tcp_client.Client.Receive.Method.{CanReceive}
use ossim_tcp_client.Client.Connect.{
  connect_wait, recv_control, connect, connect_loop, config_socket, control_block, register_socket,
}
use ossim_tcp_client.Client.Connect.Waiting.{WaitPost, ControlPost, waiting_ends}
use ossim_tcp_client.Client.Connect.Opened.{
  ConnectPost, connect-Opened, connect-CanSend, reconnect_refuses,
}
use ossim_tcp_client.Examples.Loopback.{Streams, loop_os}

abbrev silent_os : Os Streams
silent_os = record loop_os { connect = λ sock addr w. (false, w); recv = λ t n w. (none, w) }

abbrev start : Sys Streams
start = record { client = new_client; world = λ u. [] }

waiting_ends_example :
    Returns (connect_wait silent_os 4 7 15 start) (WaitPost silent_os 7 new_client)
    × Returns (recv_control silent_os 4 7 15 start) (ControlPost silent_os 7 new_client)
waiting_ends_example = waiting_ends silent_os 7 15 start

abbrev control : List ℕ
control =
    u_int64_to_char8 56
    ++ (u_int64_to_char8 DataTypes.service
        ++ (u_int64_to_char8 ControlTags.socketconfig
            ++ (u_int64_to_char8 0x01000001
                ++ (u_int64_to_char8 0
                    ++ (u_int64_to_char8 64 ++ (u_int64_to_char8 1 ++ u_int64_to_char8 1))))))

abbrev asked : Sys Streams
asked = record { client = new_client; world = λ u. if u == 7 then control else [] }

abbrev failed : Sys Streams
failed = record asked { client = record new_client { last_error = negsuc 0 } }

connect-Opened_example : Ends (connect loop_os asked) (ConnectPost loop_os 7 (pos 0))
connect-Opened_example = connect-Opened loop_os asked

abbrev ended : Run Streams Bool → Sys Streams
ended (done a s) = s
ended stuck = start
ended fault = start

connects : connect loop_os asked ≡ done true (ended (connect loop_os asked))
unfolding connect connect_loop connect_wait config_socket recv_control u_int64_to_char8 le_bytes
    control_block word_at? of_le register_socket to_int write_at? ◌+ℤ◌
connects = refl

reconnects : connect loop_os failed ≡ done true (ended (connect loop_os failed))
unfolding connect connect_loop connect_wait config_socket recv_control u_int64_to_char8 le_bytes
    control_block word_at? of_le register_socket to_int write_at? ◌+ℤ◌
reconnects = refl

connect-CanSend_example :
    CanSend (ended (connect loop_os asked)).client
    × CanReceive (ended (connect loop_os asked)).client
connect-CanSend_example =
    connect-CanSend loop_os asked (ended (connect loop_os asked)) refl connects

reconnect_refuses_example :
    (send loop_os 9 (some (1 ∷ [])) 1 (ended (connect loop_os failed))
      ≡ done (negsuc 1) (ended (connect loop_os failed)))
    × (receive loop_os 9 (some (1 ∷ [])) 1 (ended (connect loop_os failed))
        ≡ done (negsuc 1, 1 ∷ []) (ended (connect loop_os failed)))
reconnect_refuses_example =
    reconnect_refuses loop_os failed (ended (connect loop_os failed)) 9 1 (1 ∷ []) refl reconnects
