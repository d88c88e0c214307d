-- ===== src/Client/Receive/Method.antt =====
-- `TCPClient::receive` as a whole: one block from the socket whose turn it is.
use ossim_tcp_client.Prelude.{
  ℕ, ◌≤◌, ◌<◌, ◌≡◌, refl, sym, ◌∙◌, ◌≢◌, List, [], ◌++◌, some, true, ℤ, pos, negsuc, length,
  get_elem?, drop, arith, le→ltb,
}
use ossim_tcp_client.Protocol.{Connection}
use ossim_tcp_client.Client.Os.{Os, RecvLaws}
use ossim_tcp_client.Client.Monad.{Client, Sys, Returns, Returns-bind}
use ossim_tcp_client.Client.Base.{is_zero, add64, with_connection}
use ossim_tcp_client.Client.Send.{next_socket}
use ossim_tcp_client.Client.Send.Stream.{Broken}
use ossim_tcp_client.Client.Receive.{recv_loop, receive_finish, receive}
use ossim_tcp_client.Client.Receive.Stream.{RecvPost, recv_loop-stream}

-- A client that can receive: no error so far, and its turn points at one of its sockets.
pub record CanReceive (c : Client) : Type 0 where
  pub no_error : is_zero c.last_error ≡ true
  pub in_range : c.connection.i_socket_rcv < length c.connection.sockfd_rcv
  pub few : length c.connection.sockfd_rcv < 256

-- The connection after its turn to receive has moved on to the next socket
abbrev pub rcv_turned : Connection → Connection
rcv_turned c = record c { i_socket_rcv = next_socket c.i_socket_rcv (length c.sockfd_rcv) }

module _ {W : Type 0} (inbox : W → ℕ → List ℕ) where
  -- Between `s` and `s'` the bytes `bs` came in on `sock`, the turn moved on and `bytesReceived_`
  -- counted; `rest` is still to come.
  pub record Received (s s' : Sys W) (sock : ℕ) (bs rest : List ℕ) : Type 0 where
    pub after : inbox s'.world sock ≡ rest
    pub others : (u : ℕ) → u ≢ sock → inbox s'.world u ≡ inbox s.world u
    pub connection : s'.client.connection ≡ rcv_turned s.client.connection
    pub connection_info : s'.client.connection_info ≡ s.client.connection_info
    pub last_error : s'.client.last_error ≡ s.client.last_error
    pub bytes_received : s'.client.bytes_received ≡ add64 s.client.bytes_received (length bs)

  -- How `receive` ends: with a whole block at the front of the buffer `mem`, or with -1 and a broken
  -- client.
  abbrev pub ReceivePost : Sys W → ℕ → List ℕ → List ℕ → List ℕ → ℤ × List ℕ → Sys W → Type 0
  ReceivePost s sock bs rest mem (pos n, mem') s' =
      (n ≡ length bs) × (mem' ≡ bs ++ drop (length bs) mem) × Received s s' sock bs rest
  ReceivePost s sock bs rest mem (negsuc e, mem') s' = (e ≡ 0) × Broken s'.client

module _ {W : Type 0} (os : Os W) (inbox : W → ℕ → List ℕ) (laws : RecvLaws os inbox) where
  abbrev on_rcv_turn : Sys W → Sys W
  on_rcv_turn s = record s { client = with_connection rcv_turned s.client }

  receive_finish-ReceivePost :
      (s : Sys W) (sock : ℕ) (bs rest mem : List ℕ) (total : ℕ)
      → length bs ≡ total
      → (r : ℤ × List ℕ) (s' : Sys W)
      → RecvPost inbox (on_rcv_turn s) sock bs rest total (bs ++ drop (length bs) mem) r s'
      → Returns (receive_finish os r s') (ReceivePost inbox s sock bs rest mem)
  unfolding receive_finish
  receive_finish-ReceivePost s sock bs rest mem total l (negsuc e, m) s' h = h
  receive_finish-ReceivePost s sock bs rest mem total l (pos n, m) s' (e, q, t) = (
    e ∙ sym l,
    q,
    record {
      after = rw (laws.sleep_inbox s'.client.connection_info.delay_rcv_ms sock s'.world) t.after;
      others = λ u ne.
          rw (laws.sleep_inbox s'.client.connection_info.delay_rcv_ms u s'.world) (t.others u ne);
      connection = t.connection;
      connection_info = t.connection_info;
      last_error = t.last_error;
      bytes_received = rw (t.bytes_received, e, l);
    },
  )

  -- On a client that can receive (no recorded error, a turn in range, fewer than 256 sockets),
  -- with a whole block still to come on the socket whose turn it is, and with a length and a
  -- buffer of at least a block, `receive` ends, with fuel above the block size: it has taken
  -- exactly that block from that socket into the front of the buffer, moved the turn on and
  -- counted the bytes, or it answers -1 and leaves a broken client.
  pub receive-ReceivePost :
      (fuel sock : ℕ) (mem bs rest : List ℕ) (len : ℕ) (s : Sys W)
      → CanReceive s.client
      → get_elem? s.client.connection.sockfd_rcv s.client.connection.i_socket_rcv ≡ some sock
      → inbox s.world sock ≡ bs ++ rest
      → length bs ≡ s.client.connection_info.tcp_buf_size
      → s.client.connection_info.tcp_buf_size ≤ len
      → length bs ≤ length mem
      → length bs < fuel
      → Returns (receive os fuel (some mem) len s) (ReceivePost inbox s sock bs rest mem)
  unfolding receive
  receive-ReceivePost fuel sock mem bs rest len s can e i l h m f =
      rw (can.no_error, le→ltb len s.client.connection_info.tcp_buf_size h)
        (Returns-bind (recv_loop os fuel s.client.connection.i_socket_rcv mem 0) (receive_finish os)
          (on_rcv_turn s)
          (RecvPost inbox (on_rcv_turn s) sock bs rest s.client.connection_info.tcp_buf_size
            (bs ++ drop (length bs) mem))
          (ReceivePost inbox s sock bs rest mem)
          (recv_loop-stream os inbox laws fuel s.client.connection.i_socket_rcv sock 0
            s.client.connection_info.tcp_buf_size [] mem bs rest (on_rcv_turn s) e refl refl i
            (omega arith) m f)
          (receive_finish-ReceivePost s sock bs rest mem s.client.connection_info.tcp_buf_size l))
