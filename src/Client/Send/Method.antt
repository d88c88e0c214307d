-- ===== src/Client/Send/Method.antt =====
-- `TCPClient::send` as a whole: one buffer on the socket whose turn it is.
use ossim_tcp_client.Prelude.{
  ℕ, ◌<◌, ◌≡◌, ◌≢◌, List, ◌++◌, some, true, ℤ, pos, negsuc, length, get_elem?, arith,
}
use ossim_tcp_client.Protocol.{Connection}
use ossim_tcp_client.Client.Os.{Os, SendLaws}
use ossim_tcp_client.Client.Monad.{Client, Sys, Returns, Returns-bind}
use ossim_tcp_client.Client.Base.{is_zero, add64, with_connection}
use ossim_tcp_client.Client.Send.{send_loop, send_finish, send, next_socket}
use ossim_tcp_client.Client.Send.Stream.{Broken, LoopPost, send_loop-stream}

-- A client that can send: no error so far, and its turn points at one of its sockets.
pub record CanSend (c : Client) : Type 0 where
  pub no_error : is_zero c.last_error ≡ true
  pub in_range : c.connection.i_socket_send < length c.connection.sockfd_send
  pub few : length c.connection.sockfd_send < 256

-- The connection after its turn has moved on to the next socket
abbrev pub turned : Connection → Connection
turned c = record c { i_socket_send = next_socket c.i_socket_send (length c.sockfd_send) }

module _ {W : Type 0} (log : W → ℕ → List ℕ) where
  -- Between `s` and `s'` the buffer `bs` went out on `sock`, the turn moved on and `bytesSent_` counted.
  pub record Sent (s s' : Sys W) (sock : ℕ) (bs : List ℕ) : Type 0 where
    pub sent : log s'.world sock ≡ log s.world sock ++ bs
    pub others : (u : ℕ) → u ≢ sock → log s'.world u ≡ log s.world u
    pub connection : s'.client.connection ≡ turned s.client.connection
    pub connection_info : s'.client.connection_info ≡ s.client.connection_info
    pub last_error : s'.client.last_error ≡ s.client.last_error
    pub bytes_sent : s'.client.bytes_sent ≡ add64 s.client.bytes_sent (length bs)

  -- How `send` ends: with the length, or with -1 and a broken client.
  abbrev pub SendPost : Sys W → ℕ → List ℕ → ℤ → Sys W → Type 0
  SendPost s sock bs (pos n) s' = (n ≡ length bs) × Sent s s' sock bs
  SendPost s sock bs (negsuc e) s' = (e ≡ 0) × Broken s'.client

module _ {W : Type 0} (os : Os W) (log : W → ℕ → List ℕ) (laws : SendLaws os log) where
  abbrev on_turn : Sys W → Sys W
  on_turn s = record s { client = with_connection turned s.client }

  send_finish-SendPost :
      (s : Sys W) (sock : ℕ) (bs : List ℕ) (r : ℤ) (s' : Sys W)
      → LoopPost log (on_turn s) sock bs (length bs) r s'
      → Returns (send_finish os r s') (SendPost log s sock bs)
  unfolding send_finish
  send_finish-SendPost s sock bs (negsuc e) s' h = h
  send_finish-SendPost s sock bs (pos n) s' (e, d) = (
    e,
    record {
      sent = rw (laws.sleep_log s'.client.connection_info.delay_send_ms sock s'.world) d.sent;
      others = λ u ne.
          rw (laws.sleep_log s'.client.connection_info.delay_send_ms u s'.world) (d.others u ne);
      connection = d.connection;
      connection_info = d.connection_info;
      last_error = d.last_error;
      bytes_sent = rw (d.bytes_sent, e);
    },
  )

  -- On a client that can send (no recorded error, a turn in range, fewer than 256 sockets), `send`
  -- of a whole buffer ends, with fuel above its length: it has handed all its bytes, in order, to
  -- the socket whose turn it is and to no other, moved the turn on and counted the bytes, or it
  -- answers -1 and leaves a broken client.
  pub send-SendPost :
      (fuel sock : ℕ) (mem : List ℕ) (s : Sys W)
      → CanSend s.client
      → get_elem? s.client.connection.sockfd_send s.client.connection.i_socket_send ≡ some sock
      → length mem < fuel
      → Returns (send os fuel (some mem) (length mem) s) (SendPost log s sock mem)
  unfolding send
  send-SendPost fuel sock mem s can e f = rw can.no_error (
      Returns-bind (send_loop os fuel s.client.connection.i_socket_send mem (length mem) 0)
        (send_finish os) (on_turn s) (LoopPost log (on_turn s) sock mem (length mem))
        (SendPost log s sock mem)
        (send_loop-stream os log laws fuel s.client.connection.i_socket_send sock mem 0 (on_turn s)
          e (omega arith) (omega arith))
        (send_finish-SendPost s sock mem))
