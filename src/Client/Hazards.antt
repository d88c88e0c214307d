-- ===== src/Client/Hazards.antt =====
-- Where `TCPClient` (src/tcpclient.cpp) trusts its peer: `receive` at the end of a stream, and
-- `receive_data` with a header that promises more than the caller's buffer holds.
use ossim_tcp_client.Prelude.{
  ℕ, zero, suc, ◌+◌, ◌-◌, ◌*◌, ◌/◌, ◌^◌, ◌<◌, ◌≤◌, ◌≡◌, refl, List, [], ◌++◌, none, some, Bool,
  true, false, pos, to_int-lt, ltb, length, get_elem?, drop, arith, lt→ltb, le→ltb, length-append,
  length-replicate, take-append-drop, append_assoc,
}
use ossim_tcp_client.Bytes.{write_at?, word_at?, u_int64_to_char8}
use ossim_tcp_client.Bytes.Laws.{
  write_at?-le, write_at?-lt, write_at?-front, word_at?-first, word_at?-append,
  length-u_int64_to_char8,
}
use ossim_tcp_client.Protocol.DataTypes
use ossim_tcp_client.Client.Os.{Os}
use ossim_tcp_client.Client.Monad.{Sys, done, stuck, fault, M, ◌>>=◌}
use ossim_tcp_client.Client.Base.{is_zero, add64, with_connection}
use ossim_tcp_client.Client.Receive.{
  receive, receive_data, recv_loop, receive_from_socket, receive_into, receive_body, receive_block,
  receive_finish, to_size, new_buffer,
}
use ossim_tcp_client.Client.Receive.Stream.{after_recv, recv_rest-some}
use ossim_tcp_client.Client.Receive.Method.{CanReceive, rcv_turned}

write_nothing : (mem : List ℕ) (n : ℕ) → n ≤ length mem → write_at? mem n [] ≡ some mem
write_nothing mem n h =
    let e : n + 0 ≡ n = omega arith in
    rw (write_at?-le mem n [] (omega arith), e, take-append-drop n mem)

bind-stuck :
    {W A B : Type 0} (m : M W A) (f : A → M W B) (s : Sys W) → m s ≡ stuck → (m >>= f) s ≡ stuck
bind-stuck m f s e = rw (e, ◌>>=◌)

bind-fault :
    {W A B : Type 0} (m : M W A) (f : A → M W B) (s : Sys W) → m s ≡ fault → (m >>= f) s ≡ fault
bind-fault m f s e = rw (e, ◌>>=◌)

module _ {W : Type 0} (os : Os W) where
  -- Every `::recv` on the socket answers 0 bytes: the peer has closed the stream.
  abbrev pub HasEnded : ℕ → Type 0
  HasEnded sock = (n : ℕ) (w : W) → (os.recv sock n w).0 ≡ some []

  recv_loop-ended :
      (fuel idx sock n : ℕ) (mem : List ℕ) (s : Sys W)
      → HasEnded sock
      → get_elem? s.client.connection.sockfd_rcv idx ≡ some sock
      → n < s.client.connection_info.tcp_buf_size
      → n ≤ length mem
      → recv_loop os fuel idx mem n s ≡ stuck
  unfolding recv_loop
  recv_loop-ended zero idx sock n mem s ended e h l = refl
  recv_loop-ended (suc fuel) idx sock n mem s ended e h l =
      let total : ℕ = s.client.connection_info.tcp_buf_size in
      let z : n + 0 ≡ n = omega arith in
      let same : write_at? mem n [] ≡ some mem = write_nothing mem n l in
      rw
        (
          lt→ltb n total h,
          recv_loop,
          recv_rest-some os idx sock n total mem mem [] s e refl (ended (total - n) s.world) same,
          ◌>>=◌,
          z,
        )
        (recv_loop-ended fuel idx sock n mem (after_recv os sock (total - n) s) ended e h l)

  -- On a client that can receive (no recorded error, a turn in range, fewer than 256 sockets), with
  -- blocks that are not empty and with a length of at least one, `receive` asks again for ever once
  -- every `::recv` on the socket whose turn it is answers 0 bytes, whatever fuel it has: 0 bytes are
  -- no error to its loop.
  pub receive_ended :
      (fuel sock len : ℕ) (mem : List ℕ) (s : Sys W)
      → CanReceive s.client
      → get_elem? s.client.connection.sockfd_rcv s.client.connection.i_socket_rcv ≡ some sock
      → HasEnded sock
      → 0 < s.client.connection_info.tcp_buf_size
      → s.client.connection_info.tcp_buf_size ≤ len
      → receive os fuel (some mem) len s ≡ stuck
  unfolding receive
  receive_ended fuel sock len mem s can e ended p h =
      rw (can.no_error, le→ltb len s.client.connection_info.tcp_buf_size h)
        (bind-stuck (recv_loop os fuel s.client.connection.i_socket_rcv mem 0) (receive_finish os) _
          (recv_loop-ended fuel s.client.connection.i_socket_rcv sock 0 mem
            (record s { client = with_connection rcv_turned s.client }) ended e p (omega arith)))

  -- The state after `receive_from_socket` took `n` bytes and left the system at `w`
  abbrev took : ℕ → W → Sys W → Sys W
  took n w s = record {
    client = record s.client { bytes_received = add64 s.client.bytes_received (to_size (pos n)) };
    world = w;
  }

  receive_from_socket_all :
      (sock n : ℕ) (bs : List ℕ) (w : W) (s : Sys W)
      → os.recv sock n s.world ≡ (some bs, w)
      → length bs ≡ n
      → n < 2 ^ 31
      → receive_from_socket os sock (pos n) s ≡ done (pos n, bs) (took n w s)
  unfolding receive_from_socket
  receive_from_socket_all sock n bs w s e l h =
      let z : to_size (pos n) ≡ n = omega arith in
      let f : ltb (n + 0) (n + 0) ≡ false = ground arith in
      rw (z, e, l, to_int-lt n (lt→ltb _ _ h), f, z)

  receive_into-all :
      (sock off n : ℕ) (bs mem mem' : List ℕ) (w : W) (s : Sys W)
      → os.recv sock n s.world ≡ (some bs, w)
      → length bs ≡ n
      → n < 2 ^ 31
      → write_at? mem off bs ≡ some mem'
      → is_zero s.client.last_error ≡ true
      → receive_into os sock mem off (pos n) s ≡ done (some (pos n), mem') (took n w s)
  unfolding receive_into
  receive_into-all sock off n bs mem mem' w s e l h q z =
      rw (receive_from_socket_all sock n bs w s e l h, ◌>>=◌, q, z)

  receive_into-overflow :
      (sock off n : ℕ) (bs mem : List ℕ) (w : W) (s : Sys W)
      → os.recv sock n s.world ≡ (some bs, w)
      → length bs ≡ n
      → n < 2 ^ 31
      → write_at? mem off bs ≡ none
      → receive_into os sock mem off (pos n) s ≡ fault
  unfolding receive_into
  receive_into-overflow sock off n bs mem w s e l h q =
      rw (receive_from_socket_all sock n bs w s e l h, ◌>>=◌, q)

  receive_body-overflow :
      (sock n size : ℕ) (mem bs tmp : List ℕ) (w : W) (s : Sys W)
      → os.recv sock n s.world ≡ (some bs, w)
      → length bs ≡ n
      → n < 2 ^ 31
      → length mem < n
      → receive_body os sock mem tmp size n s ≡ fault
  unfolding receive_body
  receive_body-overflow sock n size mem bs tmp w s q l i o = rw (
    to_int-lt n (lt→ltb _ _ i),
    receive_into-overflow sock 0 n bs mem w s q l i (write_at?-lt mem 0 bs (omega arith)),
    ◌>>=◌,
  )

  receive_block-overflow :
      (sock n size : ℕ) (mem bs : List ℕ) (w w' : W) (s : Sys W)
      → is_zero s.client.last_error ≡ true
      → 16 ≤ size
      → os.recv sock 16 s.world
        ≡ (some (u_int64_to_char8 n ++ u_int64_to_char8 DataTypes.data_block), w)
      → os.recv sock n w ≡ (some bs, w')
      → length bs ≡ n
      → n < 2 ^ 31
      → length mem < n
      → receive_block os sock mem size s ≡ fault
  unfolding receive_block
  receive_block-overflow sock n size mem bs w w' s z b r q l i o =
      let header : List ℕ = u_int64_to_char8 n ++ u_int64_to_char8 DataTypes.data_block in
      let header_size : length header ≡ 16 = omega (
        arith,
        length-append (u_int64_to_char8 n) (u_int64_to_char8 DataTypes.data_block),
        length-u_int64_to_char8 n,
        length-u_int64_to_char8 DataTypes.data_block,
      ) in
      let tail : List ℕ = drop 16 (new_buffer size) in
      let stored_header : write_at? (new_buffer size) 0 header ≡ some (header ++ tail) =
        write_at?-front (new_buffer size) header 16 header_size
          (omega (arith, length-replicate {A = ℕ} (8 * (size / 8)) 0)) in
      let split = append_assoc (u_int64_to_char8 n) (u_int64_to_char8 DataTypes.data_block) tail in
      let word0 : word_at? (header ++ tail) 0 ≡ some n =
        rw split (word_at?-first n _ (omega arith)) in
      let word1 : word_at? (header ++ tail) 1 ≡ some DataTypes.data_block = rw split (
        word_at?-append 1 DataTypes.data_block (u_int64_to_char8 n) tail (length-u_int64_to_char8 n)
          (omega arith)) in
      rw
        (
          receive_into-all sock 0 16 header (new_buffer size) (header ++ tail) w s r header_size
              (omega arith) stored_header z,
          ◌>>=◌,
          word0,
          word1,
        )
        (bind-fault (receive_body os sock mem (header ++ tail) size n) _ _
          (receive_body-overflow sock n size mem bs (header ++ tail) w' (took 16 w s) q l i o))

  -- A header that promises more bytes than the caller's buffer holds makes `receive_data` write past
  -- the end of that buffer, if the bytes come: the length is the peer's, and only the size of a block
  -- is checked.
  pub receive_data_overflow :
      (sock len n : ℕ) (mem bs : List ℕ) (t : Bool) (w w' : W) (s : Sys W)
      → CanReceive s.client
      → get_elem? s.client.connection.sockfd_rcv s.client.connection.i_socket_rcv ≡ some sock
      → s.client.connection_info.tcp_buf_size ≤ len
      → 16 ≤ s.client.connection_info.tcp_buf_size
      → os.recv sock 16 s.world
        ≡ (some (u_int64_to_char8 n ++ u_int64_to_char8 DataTypes.data_block), w)
      → os.recv sock n w ≡ (some bs, w')
      → length bs ≡ n
      → n < 2 ^ 31
      → length mem < n
      → receive_data os (some mem) len t s ≡ fault
  unfolding receive_data
  receive_data_overflow sock len n mem bs t w w' s can e h b r q l i o =
      rw (can.no_error, le→ltb len s.client.connection_info.tcp_buf_size h, e)
        (receive_block-overflow sock n s.client.connection_info.tcp_buf_size mem bs w w'
          (record s { client = with_connection rcv_turned s.client }) can.no_error b r q l i o)
