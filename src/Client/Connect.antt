-- ===== src/Client/Connect.antt =====
-- Opening a connection: `TCPClient::initConnection`, `getHostByName`, `configSocket`, `connect` and
-- the socket options (src/tcpclient.cpp). What is printed is left out.
pub mod Waiting
pub mod Shape
pub mod Configured
pub mod Opened
use ossim_tcp_client.Prelude.{
  ℕ, zero, suc, ◌+◌, ◌-◌, ◌*◌, ◌/◌, ◌%◌, ◌^◌, List, [], ◌∷◌, ◌++◌, Option, none, some, Bool, true,
  false, ◌&&◌, ℤ, pos, negsuc, is_neg, pos_part, neg_part, to_int, ◌+ℤ◌, ◌==◌, ltb, leb,
  if◌then◌else◌, length, set, take, replicate,
}
use ossim_tcp_client.Bytes.{word_at?, write_at?}
use ossim_tcp_client.Protocol.{Connection, ConnectionInfo, ConnectionState, g_min_version, info_ne}
use ossim_tcp_client.Protocol.ControlTags
use ossim_tcp_client.Protocol.DataTypes
use ossim_tcp_client.Client.Os.{Os, BufferOption}
use ossim_tcp_client.Client.Monad.{
  Client, stuck, M, pure, ◌>>=◌, ◌>>◌, in_bounds, gets, modify, effect, call,
}
use ossim_tcp_client.Client.Base.{with_connection, sleep_ms, set_error}
use ossim_tcp_client.Client.Receive.{ltb_ℤ, to_size, stored}

-- `TCPClient::wait_step_sec`
abbrev pub wait_step_sec : ℕ
wait_step_sec = 5

-- `Version::TcpIoBlock::check`
unfoldable pub check : ℕ → Bool
check ui64 = leb g_min_version ui64

-- `std::vector::resize` with 0
unfoldable pub resize : List ℕ → ℕ → List ℕ
resize xs n = take n xs ++ replicate (n - length xs) 0

-- `connection_.sockfd_[i] = sock`; `none` where `i` is out of bounds.
unfoldable pub assign? : List ℕ → ℕ → ℕ → Option (List ℕ)
assign? socks i sock = if ltb i (length socks) then some (set socks i sock) else none

-- The three vectors at their sizes for `nSockets_` sockets
unfoldable pub resize_sockets : ℕ → Bool → Connection → Connection
unfolding resize
resize_sockets n duplex c =
    let half = if duplex then n else n / 2 in
    record c {
      sockfd = resize c.sockfd n;
      sockfd_send = resize c.sockfd_send half;
      sockfd_rcv = resize c.sockfd_rcv half;
    }

-- The socket with number `id` in its places; `none` where one is out of bounds.
unfoldable pub place_socket : ℕ → Bool → ℕ → ℕ → Connection → Option Connection
unfolding assign?
place_socket n duplex id sock c = elim (assign? c.sockfd id sock) [
  | none ↦ none
  | some all ↦
      if duplex
      then elim (assign? c.sockfd_send id sock) [
        | none ↦ none
        | some out ↦ elim (assign? c.sockfd_rcv id sock) [
          | none ↦ none
          | some inp ↦ some (record c { sockfd = all; sockfd_send = out; sockfd_rcv = inp })
        ]
      ]
      else if ltb id (n / 2)
      then elim (assign? c.sockfd_send id sock) [
        | none ↦ none
        | some out ↦ some (record c { sockfd = all; sockfd_send = out })
      ]
      else elim (assign? c.sockfd_rcv (id - n / 2) sock) [
        | none ↦ none
        | some inp ↦ some (record c { sockfd = all; sockfd_rcv = inp })
      ]
]

abbrev pub eq_ℤ : ℤ → ℤ → Bool
eq_ℤ a b = pos_part a + neg_part b == pos_part b + neg_part a

-- The eight words of the control block that the server sends first
pub record ControlBlock : Type 0 where
  pub size : ℕ
  pub kind : ℕ
  pub tag : ℕ
  pub version : ℕ
  pub socket_id : ℕ
  pub buf_size : ℕ
  pub n_sockets : ℕ
  pub duplex : ℕ

abbrev word_or_zero : Option ℕ → ℕ
word_or_zero none = 0
word_or_zero (some w) = w

-- `buf` after `recv` stored `bs` at its start
unfoldable pub control_block : List ℕ → ControlBlock
control_block bs =
    let mem : List ℕ = take 64 bs ++ replicate (64 - length bs) 0 in
    record {
      size = word_or_zero (word_at? mem 0);
      kind = word_or_zero (word_at? mem 1);
      tag = word_or_zero (word_at? mem 2);
      version = word_or_zero (word_at? mem 3);
      socket_id = word_or_zero (word_at? mem 4);
      buf_size = word_or_zero (word_at? mem 5);
      n_sockets = word_or_zero (word_at? mem 6);
      duplex = word_or_zero (word_at? mem 7);
    }

-- `DataTypes::service == buf[1] && ControlTags::socketconfig == buf[2] &&
-- ctrl_buf_size == buf[0] + sizeof(uint64_t)`
unfoldable pub is_config : ControlBlock → Bool
is_config b =
    b.kind == DataTypes.service && b.tag == ControlTags.socketconfig && (b.size + 8) % 2 ^ 64 == 64

-- The parameters that the first control block sets
unfoldable pub with_parameters : ControlBlock → Client → Client
unfolding resize_sockets
with_parameters b c =
    let n = b.n_sockets % 256 in
    let d = b.duplex == 1 in
    record c {
      connection_info = record c.connection_info {
        tcp_buf_size = b.buf_size % 2 ^ 32;
        n_sockets = n;
        is_duplex_sockets = d;
      };
      connection = resize_sockets n d c.connection;
    }

module _ {W : Type 0} (os : Os W) where
  -- `TCPClient::getHostByName`
  unfoldable pub get_host_by_name : List ℕ → M W (List ℕ)
  get_host_by_name host = call (λ w. (os.getaddrinfo host w, w)) >>= λ r. pure (stored r)

  -- `TCPClient::initConnection`
  unfoldable pub init_connection : ConnectionInfo → M W Bool
  unfolding get_host_by_name
  init_connection info = get_host_by_name info.remote_address >>= λ host.
      modify (
        with_connection (λ c. record c {
          server_addr = record { sin_port = info.port % 2 ^ 16; s_addr = os.inet_addr host };
        }))
      >> gets (λ c. info_ne c.connection_info info)
      >>= λ new.
          if new
          then (modify (λ c. record c { connection_info = info })
              >> modify (with_connection (λ c. record c { state = ConnectionState.initialized }))
              >> pure true)
          else pure false

  -- `getSockOpt`
  unfoldable pub get_sock_opt : ℕ → BufferOption → M W ℤ
  get_sock_opt sock optname = call (λ w. (os.getsockopt sock optname w, w)) >>= λ r.
      pure (elim r [ none ↦ pos 0 | some v ↦ v ])

  -- `setSockOpt`
  unfoldable pub set_sock_opt : ℕ → BufferOption → ℤ → M W ℤ
  unfolding get_sock_opt
  set_sock_opt sock optname optval =
      effect (os.setsockopt sock optname optval) >> get_sock_opt sock optname

  -- `setTimeout(sock, is_receive, to)`
  unfoldable pub set_time_out : ℕ → Bool → ℤ → M W (Unit {0})
  set_time_out sock is_receive to = effect (os.set_time_out sock is_receive to)

  -- `setTimeout(to)`
  unfoldable pub set_time_outs : Bool → List ℕ → ℤ → W → W
  set_time_outs is_receive [] to w = w
  set_time_outs is_receive (sock ∷ socks) to w =
      set_time_outs is_receive socks to (os.set_time_out sock is_receive to w)

  unfoldable pub set_all_time_outs : ℤ → M W (Unit {0})
  unfolding set_time_outs
  set_all_time_outs to = do
    rcv ← gets (λ c. c.connection.sockfd_rcv)
    effect (set_time_outs true rcv to)
    out ← gets (λ c. c.connection.sockfd_send)
    effect (set_time_outs false out to)

  -- The loop that waits for the control block; `none` is the error. Each round with nothing received
  -- takes `wait_step_sec` of the seconds that are left, so these are the fuel.
  unfoldable pub recv_control : ℕ → ℕ → ℕ → M W (Option (List ℕ))
  recv_control zero sock sec_left = λ s. stuck
  recv_control (suc fuel) sock sec_left = call (os.recv sock 64) >>= λ r.
      if ltb (length (stored r)) 64 && ltb sec_left wait_step_sec
      then set_error os >> pure none
      else elim r [
        | none ↦ recv_control fuel sock (sec_left - wait_step_sec)
        | some bs ↦ pure (some bs)
      ]

  -- The system's buffers of a socket are raised to the size of a block.
  unfoldable pub raise_buffers : ℕ → ℤ → M W (Unit {0})
  unfolding get_sock_opt set_sock_opt
  raise_buffers sock new_buf_size = get_sock_opt sock BufferOption.so_sndbuf >>= λ buf_size_send.
      get_sock_opt sock BufferOption.so_rcvbuf >>= λ buf_size_receive.
      (if ltb_ℤ buf_size_send new_buf_size
        then (set_sock_opt sock BufferOption.so_sndbuf new_buf_size >>= λ _. pure tt)
        else pure tt)
      >> (if ltb_ℤ buf_size_receive new_buf_size
          then (set_sock_opt sock BufferOption.so_rcvbuf new_buf_size >>= λ _. pure tt)
          else pure tt)

  -- The rest of the control block: whether it came whole. `buf` has `new_buf_size / 8` words by now.
  unfoldable pub recv_tail : ℕ → ℤ → M W Bool
  recv_tail sock new_buf_size =
      let len : ℤ = new_buf_size +ℤ negsuc 63 in
      call (os.recv sock (to_size len)) >>= λ r.
      in_bounds (write_at? (replicate (8 * (pos_part new_buf_size / 8)) 0) 0 (stored r)) >>= λ _.
      pure (eq_ℤ (elim r [ none ↦ negsuc 0 | some bs ↦ to_int (length bs) ]) len)

  -- `configSocket` from a valid control block on
  unfoldable pub register_socket : ℕ → ℕ → M W Bool
  unfolding raise_buffers recv_tail place_socket
  register_socket sock socket_id =
      gets (λ c. to_int c.connection_info.tcp_buf_size) >>= λ new_buf_size.
      raise_buffers sock new_buf_size >> recv_tail sock new_buf_size >>= λ res.
      if res
      then (gets (λ c.
            place_socket c.connection_info.n_sockets c.connection_info.is_duplex_sockets socket_id
              sock c.connection)
          >>= λ placed. in_bounds placed >>= λ connection.
              modify (λ c. record c { connection = connection }) >> pure true)
      else (set_error os >> pure false)

  -- `TCPClient::configSocket`
  unfoldable pub config_socket : ℕ → ℕ → ℕ → M W Bool
  unfolding set_time_out is_config check with_parameters
  config_socket fuel idx_socket sock =
      set_time_out sock true (pos wait_step_sec)
      >> gets (λ c. pos_part c.connection_info.wait_connect)
      >>= λ sec_left. recv_control fuel sock sec_left >>= λ bs?. elim bs? [
        | none ↦ pure false
        | some bs ↦
            let b : ControlBlock = control_block bs in
            if is_config b
            then if idx_socket == 0
              then if check b.version
                then (modify (with_parameters b) >> register_socket sock b.socket_id)
                else pure false
              else register_socket sock b.socket_id
            else (set_error os >> pure false)
      ]

  -- The loop that waits for a connection
  unfoldable pub connect_wait : ℕ → ℕ → ℕ → M W Bool
  connect_wait zero sock sec_left = λ s. stuck
  connect_wait (suc fuel) sock sec_left = gets (λ c. c.connection.server_addr) >>= λ addr.
      call (os.connect sock addr) >>= λ accepted. elim accepted [
        | true ↦ pure true
        | false ↦ elim (leb wait_step_sec sec_left) [
          | true ↦
              sleep_ms os (pos (wait_step_sec * 1000))
              >> connect_wait fuel sock (sec_left - wait_step_sec)
          | false ↦ set_error os >> pure false
        ]
      ]

  -- `if (connectionInfo_.delayAfterConnect_ > 0) …`
  unfoldable pub sleep_after_connect : M W (Unit {0})
  sleep_after_connect = gets (λ c. c.connection_info.delay_after_connect) >>= λ ms.
      if ltb_ℤ (pos 0) ms then sleep_ms os ms else pure tt

  -- The loop of `connect`: one socket a round, until there are as many as the server wants.
  unfoldable pub connect_loop : ℕ → ℕ → M W Bool
  unfolding sleep_after_connect
  connect_loop zero count_sockets = λ s. stuck
  connect_loop (suc fuel) count_sockets = call os.socket >>= λ sock.
      gets (λ c. pos_part c.connection_info.wait_connect) >>= λ sec_left.
      connect_wait (suc (sec_left / wait_step_sec)) sock sec_left >>= λ connected. elim connected [
        | false ↦ pure false
        | true ↦ config_socket (suc (sec_left / wait_step_sec)) count_sockets sock >>= λ configured.
            elim configured [
              | false ↦ pure false
              | true ↦ sleep_after_connect >> gets (λ c. length c.connection.sockfd) >>= λ n.
                  elim (ltb (count_sockets + 1) n) [
                    | true ↦ connect_loop fuel (count_sockets + 1)
                    | false ↦ pure true
                  ]
            ]
      ]

  -- `connect` after its loop: time-outs, state and counters
  unfoldable pub connect_finish : Bool → M W Bool
  unfolding set_all_time_outs
  connect_finish false = pure false
  connect_finish true = gets (λ c. c.connection_info.time_out) >>= λ to.
      (if is_neg to then pure tt else set_all_time_outs to)
      >> modify (λ c. record c {
        connection = record c.connection {
          state = ConnectionState.connected;
          i_socket_send = 0;
          i_socket_rcv = 0;
        };
        bytes_sent = 0;
        bytes_received = 0;
      })
      >> pure true

  -- `TCPClient::connect`. `nSockets_` is a byte, so 256 rounds are enough.
  unfoldable pub connect : M W Bool
  unfolding connect_finish
  connect = connect_loop 256 0 >>= connect_finish
