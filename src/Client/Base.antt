-- ===== src/Client/Base.antt =====
-- The small methods of `TCPClient` that the others call: errors, closing, sleeping, counters.
use ossim_tcp_client.Prelude.{
  ℕ, ◌+◌, ◌-◌, ◌/◌, ◌%◌, ◌^◌, List, [], ◌∷◌, Bool, true, false, ℤ, pos, negsuc, ◌==◌, if◌then◌else◌,
  map,
}
use ossim_tcp_client.Protocol.{Connection, ConnectionState}
use ossim_tcp_client.Client.Os.{Os}
use ossim_tcp_client.Client.Monad.{Client, M, pure, ◌>>=◌, ◌>>◌, gets, modify, effect, call}

-- `a += b` on a `uint64_t`
abbrev pub add64 : ℕ → ℕ → ℕ
add64 a b = (a + b) % 2 ^ 64

-- `a -= b` and `a - b` on a `uint64_t`
abbrev pub sub64 : ℕ → ℕ → ℕ
sub64 a b = (a % 2 ^ 64 + 2 ^ 64 - b % 2 ^ 64) % 2 ^ 64

abbrev pub is_zero : ℤ → Bool
is_zero (pos n) = n == 0
is_zero (negsuc n) = false

abbrev pub with_connection : (Connection → Connection) → Client → Client
with_connection f c = record c { connection = f c.connection }

module _ {W : Type 0} (os : Os W) where
  -- `TCPClient::SleepMs`
  unfoldable pub sleep_ms : ℤ → M W (Unit {0})
  sleep_ms ms = effect (os.sleep_ms ms)

  -- `TCPClient::get_error`
  unfoldable pub get_error : M W ℤ
  get_error = gets (λ c. c.last_error)

  unfoldable pub close_all : List ℕ → W → W
  close_all [] w = w
  close_all (sock ∷ socks) w = close_all socks (os.close sock w)

  -- `TCPClient::disconnect`: every socket is closed and its entry in `sockfd_` is cleared.
  unfoldable pub disconnect : M W Bool
  unfolding close_all
  disconnect = do
    socks ← gets (λ c. c.connection.sockfd)
    effect (close_all socks)
    modify (with_connection (λ c. record c { sockfd = map (λ _. 0) c.sockfd }))
    modify (with_connection (λ c. record c { state = ConnectionState.disconnected }))
    pure true

  -- `TCPClient::getState`
  unfoldable pub get_state : M W ConnectionState
  get_state = gets (λ c. c.connection.state)

  -- `TCPClient::get_bytes_sent` and `get_bytes_received`
  unfoldable pub get_bytes_sent : M W ℕ
  get_bytes_sent = gets (λ c. c.bytes_sent)

  unfoldable pub get_bytes_received : M W ℕ
  get_bytes_received = gets (λ c. c.bytes_received)

  -- `TCPClient::get_sent_time_ms` and `get_received_time_ms`: whole milliseconds
  unfoldable pub get_sent_time_ms : M W ℕ
  get_sent_time_ms = gets (λ c. c.sent_time / 1000000)

  unfoldable pub get_received_time_ms : M W ℕ
  get_received_time_ms = gets (λ c. c.received_time / 1000000)

  -- `TCPClient::set_display`
  unfoldable pub set_display : Bool → M W (Unit {0})
  set_display display_raw =
      modify
        (λ c. record c { connection_info = record c.connection_info { display_raw = display_raw } })

  -- `TCPClient::set_error`, with the message left out
  unfoldable pub set_error : M W (Unit {0})
  unfolding disconnect
  set_error = do
    last_error ← call (λ w. (os.errno w, w))
    modify (λ c. record c { last_error = if last_error == 0 then negsuc 0 else pos last_error })
    disconnect >>= λ _. pure tt
