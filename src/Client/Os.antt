-- ===== src/Client/Os.antt =====
-- What the client calls of the operating system: POSIX sockets, the clock and sleeping. The system's
-- state is a type `W`, and each call is a function on it. `none` stands for a result of -1.
use ossim_tcp_client.Prelude.{
  ℕ, ◌<◌, ◌≤◌, ◌≡◌, ◌≢◌, ◌++◌, List, Option, some, Bool, ℤ, length, take,
}
use ossim_tcp_client.Protocol.{ServerAddress}

-- SO_SNDBUF and SO_RCVBUF
pub data BufferOption : Type 0 where
  so_sndbuf so_rcvbuf : BufferOption

pub record Os (W : Type 0) : Type 0 where
  -- `socket(AF_INET, SOCK_STREAM, IPPROTO_TCP)`
  pub socket : W → ℕ × W
  -- `::connect`: whether the result is not negative
  pub connect : ℕ → ServerAddress → W → Bool × W
  pub close : ℕ → W → W
  -- `::send(sock, data, length, 0)`: the number of bytes taken
  pub send : ℕ → List ℕ → W → Option ℕ × W
  -- `::recv(sock, buf, length, MSG_WAITALL)`: the bytes stored in `buf`
  pub recv : ℕ → ℕ → W → Option (List ℕ) × W
  pub errno : W → ℕ
  -- `usleep(ms * 1000)`
  pub sleep_ms : ℤ → W → W
  -- `high_resolution_clock::now()`, in nanoseconds
  pub clock : W → ℕ
  pub getsockopt : ℕ → BufferOption → W → Option ℤ
  pub setsockopt : ℕ → BufferOption → ℤ → W → W
  -- `setsockopt` with SO_RCVTIMEO (true) or SO_SNDTIMEO (false)
  pub set_time_out : ℕ → Bool → ℤ → W → W
  -- `getaddrinfo` and `inet_ntoa`: the dotted address of a host
  pub getaddrinfo : List ℕ → W → Option (List ℕ)
  pub inet_addr : List ℕ → ℕ

-- What POSIX says of `send` on a stream, where `log w t` is all that socket `t` has taken by `w`:
-- a call that succeeds on a buffer which is not empty takes a part of it, at least one byte, and
-- takes it from the front; a call that fails takes nothing; other sockets are left alone. Sleeping
-- and closing send nothing.
pub record SendLaws {W : Type 0} (os : Os W) (log : W → ℕ → List ℕ) : Type 0 where
  pub send_progress :
      (t : ℕ) (bs : List ℕ) (w w' : W) (n : ℕ)
      → os.send t bs w ≡ (some n, w')
      → 0 < length bs
      → (0 < n) × (n ≤ length bs)
  pub send_log :
      (t : ℕ) (bs : List ℕ) (w w' : W) (n : ℕ)
      → os.send t bs w ≡ (some n, w')
      → log w' t ≡ log w t ++ take n bs
  pub send_others :
      (t u : ℕ) (bs : List ℕ) (w w' : W) (n : ℕ)
      → os.send t bs w ≡ (some n, w')
      → u ≢ t
      → log w' u ≡ log w u
  pub sleep_log : (ms : ℤ) (t : ℕ) (w : W) → log (os.sleep_ms ms w) t ≡ log w t

-- What POSIX says of `recv` with MSG_WAITALL on a stream, where `inbox w t` is all that socket `t` has
-- still to deliver after `w`: a call that succeeds delivers the next bytes, at most as many as it was
-- asked for, and at least one unless it was asked for none or the stream has ended. Other sockets and
-- sleeping change nothing.
pub record RecvLaws {W : Type 0} (os : Os W) (inbox : W → ℕ → List ℕ) : Type 0 where
  pub recv_next :
      (t n : ℕ) (bs : List ℕ) (w w' : W)
      → os.recv t n w ≡ (some bs, w')
      → inbox w t ≡ bs ++ inbox w' t
  pub recv_le : (t n : ℕ) (bs : List ℕ) (w w' : W) → os.recv t n w ≡ (some bs, w') → length bs ≤ n
  pub recv_progress :
      (t n : ℕ) (bs : List ℕ) (w w' : W)
      → os.recv t n w ≡ (some bs, w')
      → 0 < n
      → 0 < length (inbox w t)
      → 0 < length bs
  pub recv_others :
      (t u n : ℕ) (bs : List ℕ) (w w' : W)
      → os.recv t n w ≡ (some bs, w')
      → u ≢ t
      → inbox w' u ≡ inbox w u
  pub sleep_inbox : (ms : ℤ) (t : ℕ) (w : W) → inbox (os.sleep_ms ms w) t ≡ inbox w t
