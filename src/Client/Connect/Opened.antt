-- ===== src/Client/Connect/Opened.antt =====
-- `TCPClient::connect` (src/tcpclient.cpp) as a whole: it does not go on for ever, and what a success
-- makes of the client's fields.
use ossim_tcp_client.Prelude.{
  ℕ, zero, suc, ◌+◌, ◌/◌, ◌<◌, ◌≤◌, ◌≡◌, refl, ap, subst, List, some, Bool, true, false, ℤ, negsuc,
  pos_part, is_neg, ltb, length, arith, inl, inr, Bool-cases,
}
use ossim_tcp_client.Protocol.{ConnectionState}
use ossim_tcp_client.Client.Os.{Os}
use ossim_tcp_client.Client.Monad.{
  Client, Sys, M, done, Returns, Ends, Ends-bind, Returns-Ends, ◌>>=◌, pure, gets, ◌>>◌,
}
use ossim_tcp_client.Client.Base.{sleep_ms, is_zero}
use ossim_tcp_client.Client.Send.{send}
use ossim_tcp_client.Client.Receive.{receive}
use ossim_tcp_client.Client.Send.Method.{CanSend}
use ossim_tcp_client.Client.Receive.Method.{CanReceive}
use ossim_tcp_client.Client.Errors.{send-refused, receive-refused}
use ossim_tcp_client.Client.Connect.{
  config_socket, connect_loop, connect_finish, connect, wait_step_sec, connect_wait,
  sleep_after_connect, set_all_time_outs,
}
use ossim_tcp_client.Client.Connect.Waiting.{WaitPost, waiting_ends}
use ossim_tcp_client.Client.Connect.Configured.{
  Configured, Same, ConfigPost, config_socket-Configured,
}
use ossim_tcp_client.Client.Connect.Shape.{half_of}

-- The connection is open: the state says so, nothing is counted, it is the first socket's turn, and
-- the vectors of sockets have the sizes that the parameters ask for, which are not 0. The parameters are
-- those of a control block that `::recv` answered on socket `first`.
pub record Opened {W : Type 0} (os : Os W) (first : ℕ) (e : ℤ) (c : Client) : Type 0 where
  pub configured : Configured os first e c
  pub usable : 0 < half_of c.connection_info.n_sockets c.connection_info.is_duplex_sockets
  pub state : c.connection.state ≡ ConnectionState.connected
  pub send_turn : c.connection.i_socket_send ≡ 0
  pub rcv_turn : c.connection.i_socket_rcv ≡ 0
  pub sent : c.bytes_sent ≡ 0
  pub received : c.bytes_received ≡ 0

-- The fields that `connect` sets when all sockets are there
abbrev as_opened : Client → Client
as_opened c = record c {
  connection = record c.connection {
    state = ConnectionState.connected;
    i_socket_send = 0;
    i_socket_rcv = 0;
  };
  bytes_sent = 0;
  bytes_received = 0;
}

Configured-Opened :
    {W : Type 0} (os : Os W) (first : ℕ) (e : ℤ) (c : Client)
    → Configured os first e c
    → 0 < half_of c.connection_info.n_sockets c.connection_info.is_duplex_sockets
    → Opened os first e (as_opened c)
Configured-Opened os first e c h u = record {
  usable = u;
  configured = record {
    bytes = h.bytes;
    came = h.came;
    asked = record {
      valid = h.asked.valid;
      version = h.asked.version;
      buf_size = h.asked.buf_size;
      n_sockets = h.asked.n_sockets;
      duplex = h.asked.duplex;
    };
    few = h.few;
    sizes = record { all = h.sizes.all; out = h.sizes.out; inp = h.sizes.inp };
    last_error = h.last_error;
  };
  state = refl;
  send_turn = refl;
  rcv_turn = refl;
  sent = refl;
  received = refl;
}

half-le : (n : ℕ) (duplex : Bool) → half_of n duplex ≤ n
half-le n duplex = ground arith

module _ {W : Type 0} (os : Os W) (first : ℕ) where
  -- How `connect` ends: the connection is open, or it answers false.
  abbrev pub ConnectPost : ℤ → Bool → Sys W → Type 0
  ConnectPost e true s = Opened os first e s.client
  ConnectPost e false s = Unit {0}

  sleep_after_connect-Same : (s : Sys W) → Returns (sleep_after_connect os s) (Same s.client)
  unfolding sleep_after_connect sleep_ms
  sleep_after_connect-Same s = ground arith

  -- What follows the registration of socket number `count`: the next round, or the end
  after_config :
      (count : ℕ) (e : ℤ) (next : M W Bool) (s : Sys W)
      → count < 256
      → ((s' : Sys W)
          → Configured os first e s'.client
          → count + 1 < 256
          → Ends (next s') (ConfigPost os first e))
      → (configured : Bool) (s' : Sys W) → ConfigPost os first e configured s'
      → let run : M W Bool = elim configured [
        | false ↦ pure false
        | true ↦ sleep_after_connect os >> gets (λ c. length c.connection.sockfd) >>= λ n.
            elim (ltb (count + 1) n) [ true ↦ next | false ↦ pure true ]
      ] in
        Ends (run s') (ConfigPost os first e)
  after_config count e next s lt ih false s' p = tt
  after_config count e next s lt ih true s' p =
      Ends-bind (sleep_after_connect os >> gets (λ c. length c.connection.sockfd)) _ s'
        (λ n s₁. (n ≡ length s'.client.connection.sockfd) × (s₁.client ≡ s'.client)) _
        (Ends-bind (sleep_after_connect os) _ s' (Same s'.client) _
          (Returns-Ends (sleep_after_connect os s') (Same s'.client) (sleep_after_connect-Same s'))
          (λ _ s₁ q. (ap (λ (c : Client). length c.connection.sockfd) q, q)))
        (λ n s₁ q. elim (Bool-cases (ltb (count + 1) n)) [
          | inl more ↦ rw more (ih s₁ (rw q.1 p.0) (ground (arith, q.0, p.0.sizes.all, p.0.few)))
          | inr all ↦ rw all (rw q.1 p)
        ])

  -- What follows the connection of a socket
  after_connected :
      (fuel count sock : ℕ) (e : ℤ) (s : Sys W)
      → count < 256
      → s.client.last_error ≡ e
      → (count ≡ 0 → sock ≡ first)
      → (0 < count → Configured os first e s.client)
      → ((s' : Sys W)
          → Configured os first e s'.client
          → count + 1 < 256
          → Ends (connect_loop os fuel (count + 1) s') (ConfigPost os first e))
      → (connected : Bool) (s' : Sys W) → WaitPost os sock s.client connected s'
      → let sec : ℕ = pos_part s.client.connection_info.wait_connect in
        let run : M W Bool = elim connected [
          | false ↦ pure false
          | true ↦ config_socket os (suc (sec / wait_step_sec)) count sock >>= λ configured.
              elim configured [
                | false ↦ pure false
                | true ↦ sleep_after_connect os >> gets (λ c. length c.connection.sockfd) >>= λ n.
                    elim (ltb (count + 1) n) [
                      | true ↦ connect_loop os fuel (count + 1)
                      | false ↦ pure true
                    ]
              ]
        ] in
        Ends (run s') (ConfigPost os first e)
  after_connected fuel count sock e s lt same fst h ih false s' p = tt
  after_connected fuel count sock e s lt same fst h ih true s' p =
      let fuel' : Client → ℕ = λ c. suc (pos_part c.connection_info.wait_connect / wait_step_sec) in
      Ends-bind (config_socket os (fuel' s.client) count sock) _ s' (ConfigPost os first e) _
        (subst (λ c. Ends (config_socket os (fuel' c) count sock s') (ConfigPost os first e)) p.0
          (config_socket-Configured os first count sock e s' (rw p.0 same) fst (λ k. rw p.0 (h k))))
        (after_config count e (connect_loop os fuel (count + 1)) s lt ih)

  connect_loop-Configured :
      (fuel count : ℕ) (e : ℤ) (s : Sys W)
      → 256 ≤ fuel + count
      → count < 256
      → (count ≡ 0 → (os.socket s.world).0 ≡ first)
      → s.client.last_error ≡ e
      → (0 < count → Configured os first e s.client)
      → Ends (connect_loop os fuel count s) (ConfigPost os first e)
  unfolding connect_loop
  connect_loop-Configured zero count e s f lt fst same h = absurd (omega arith)
  connect_loop-Configured (suc fuel) count e s f lt fst same h =
      let (sock, w) = os.socket s.world in
      let s₁ : Sys W = record s { world = (os.socket s.world).1 } in
      let sec : ℕ = pos_part s.client.connection_info.wait_connect in
      Ends-bind (connect_wait os (suc (sec / wait_step_sec)) sock sec) _ s₁
        (WaitPost os sock s.client) _
        (Returns-Ends (connect_wait os (suc (sec / wait_step_sec)) sock sec s₁)
          (WaitPost os sock s.client) (waiting_ends os sock sec s₁).0)
        (after_connected fuel count sock e s lt same fst h (λ s' c lt'.
          connect_loop-Configured fuel (count + 1) e s' (omega arith) lt'
            (λ z. absurd (omega arith)) c.last_error (λ _. c)))

  connect_finish-Opened :
      (e : ℤ) (r : Bool) (s : Sys W)
      → ConfigPost os first e r s
      → Ends (connect_finish os r s) (ConnectPost e)
  unfolding connect_finish set_all_time_outs
  connect_finish-Opened e false s h = tt
  connect_finish-Opened e true s h = elim (Bool-cases (is_neg s.client.connection_info.time_out)) [
    | inl neg ↦ rw neg (Configured-Opened os first e s.client h.0 h.1)
    | inr given ↦ rw given (Configured-Opened os first e s.client h.0 h.1)
  ]

module _ {W : Type 0} (os : Os W) where
  -- `connect` does not go on for ever, on any system and from any state: it answers false, it
  -- reaches memory outside of a vector, or it answers true, and then the state is Connected, turns
  -- and counters are 0, block size, number of sockets and duplex mode are those of a valid control
  -- block of an accepted version that `::recv` answered on the first socket, the vectors of sockets
  -- have the sizes that these ask for, and the recorded error is the one from before.
  pub connect-Opened :
      (s : Sys W) → Ends (connect os s) (ConnectPost os (os.socket s.world).0 s.client.last_error)
  unfolding connect
  connect-Opened s =
      let first : ℕ = (os.socket s.world).0 in
      Ends-bind (connect_loop os 256 0) _ s (ConfigPost os first s.client.last_error) _
        (connect_loop-Configured os first 256 0 s.client.last_error s (omega arith) (omega arith)
          (λ _. refl) refl (λ k. absurd (omega arith)))
        (λ r s' p. connect_finish-Opened os first s.client.last_error r s' p)

  -- A client without an error is, behind a `connect` that answers true, ready to send and to
  -- receive: it has from 1 to 255 sockets of each direction, and the turns are in range.
  pub connect-CanSend :
      (s s' : Sys W)
      → is_zero s.client.last_error ≡ true
      → connect os s ≡ done true s'
      → CanSend s'.client × CanReceive s'.client
  connect-CanSend s s' fine run =
      let o : Opened os (os.socket s.world).0 s.client.last_error s'.client =
        rw run at (connect-Opened s) in
      let few = o.configured.few in
      let half =
        half-le s'.client.connection_info.n_sockets s'.client.connection_info.is_duplex_sockets in
      (
        record {
          no_error = rw o.configured.last_error fine;
          in_range = rw (o.send_turn, o.configured.sizes.out) o.usable;
          few = rw o.configured.sizes.out (omega (arith, half, few));
        },
        record {
          no_error = rw o.configured.last_error fine;
          in_range = rw (o.rcv_turn, o.configured.sizes.inp) o.usable;
          few = rw o.configured.sizes.inp (omega (arith, half, few));
        },
      )

  -- A client that has recorded an error answers -2 to `send` and `receive` also behind a later
  -- `connect` that answers true, and nothing changes.
  pub reconnect_refuses :
      (s s' : Sys W) (fuel len : ℕ) (mem : List ℕ)
      → is_zero s.client.last_error ≡ false
      → connect os s ≡ done true s'
      → (send os fuel (some mem) len s' ≡ done (negsuc 1) s')
        × (receive os fuel (some mem) len s' ≡ done (negsuc 1, mem) s')
  reconnect_refuses s s' fuel len mem failed run =
      let o : Opened os (os.socket s.world).0 s.client.last_error s'.client =
        rw run at (connect-Opened s) in
      let still : is_zero s'.client.last_error ≡ false = rw o.configured.last_error failed in
      (send-refused os fuel len mem s' still, receive-refused os fuel len mem s' still)
