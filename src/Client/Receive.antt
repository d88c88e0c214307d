-- ===== src/Client/Receive.antt =====
-- Receiving: `TCPClient::receive_from_socket`, `receive_data`, `receive`, `receive_need` and
-- `receive_tcp_io` (src/tcpclient.cpp). A method that fills a buffer returns its value with the
-- buffer's bytes afterwards; the memory behind a pointer is the list of its bytes, `none` is null.
-- A loop takes fuel, one unit a round.
pub mod Independent
pub mod Stream
pub mod Method
pub mod Round
pub mod Next
pub mod TcpIo
pub mod Frames
pub mod Room
use ossim_tcp_client.Prelude.{
  ℕ, zero, suc, ◌+◌, ◌-◌, ◌*◌, ◌/◌, ◌%◌, ◌^◌, List, [], ◌∷◌, ◌++◌, Option, none, some, Bool, true,
  false, ◌&&◌, ◌||◌, ℤ, pos, negsuc, is_neg, to_int, pos_part, neg_part, ◌==◌, ltb, leb,
  if◌then◌else◌, length, get_elem?, take, drop, replicate,
}
use ossim_tcp_client.Bytes.{word_at?, read_at?, write_at?}
use ossim_tcp_client.Protocol.{Connection}
use ossim_tcp_client.Protocol.ControlTags
use ossim_tcp_client.Protocol.DataTypes
use ossim_tcp_client.Client.Os.{Os}
use ossim_tcp_client.Client.Monad.{
  Client, Sys, Run, done, stuck, fault, M, pure, ◌>>=◌, ◌>>◌, in_bounds, gets, modify, call,
}
use ossim_tcp_client.Client.Base.{
  add64, sub64, is_zero, with_connection, sleep_ms, get_error, set_error,
}
use ossim_tcp_client.Client.Send.{next_socket}

-- `a < b` on `int`
abbrev pub ltb_ℤ : ℤ → ℤ → Bool
ltb_ℤ a b = ltb (pos_part a + neg_part b) (pos_part b + neg_part a)

-- An `int` given where a `size_t` is wanted
abbrev pub to_size : ℤ → ℕ
to_size z = (pos_part z + 2 ^ 64 - neg_part z) % 2 ^ 64

-- `std::vector<uint64_t> tmpBuf(tcpBufSize_ / 8, 0)`, as bytes
abbrev pub new_buffer : ℕ → List ℕ
new_buffer buf_size = replicate (8 * (buf_size / 8)) 0

-- The bytes that a `::recv` stored
abbrev pub stored : Option (List ℕ) → List ℕ
stored none = []
stored (some bs) = bs

-- Whether a block is the service block that ends a stream: its second word is `service`, and its
-- third or its fourth is `terminate`.
unfoldable pub is_terminate_block : ℕ → Option ℕ → Option ℕ → Option Bool
is_terminate_block word1 word2? word3? =
    if word1 == DataTypes.service
    then elim word2? [
      | none ↦ none
      | some word2 ↦
          if word2 == ControlTags.terminate
          then some true
          else elim word3? [ none ↦ none | some word3 ↦ some (word3 == ControlTags.terminate) ]
    ]
    else some false

-- `memcpy(pdata + readBytes, pDataChar, n)`, from the block's bytes behind its header
unfoldable pub copy_body : List ℕ → List ℕ → ℕ → ℕ → Option (List ℕ)
copy_body pdata block read_bytes n = elim (read_at? block 16 n) [
  | none ↦ none
  | some bs ↦ write_at? pdata read_bytes bs
]

module _ {W : Type 0} (os : Os W) where
  -- `TCPClient::receive_from_socket`: the value, and the bytes stored at `data`
  unfoldable pub receive_from_socket : ℕ → ℤ → M W (ℤ × List ℕ)
  receive_from_socket socket len = do
    r ← call (os.recv socket (to_size len))
    let bs : List ℕ = stored r
    let bytes : ℤ = elim r [ none ↦ negsuc 0 | some bs ↦ to_int (length bs) ]
    if ltb_ℤ bytes len
        then set_error os >> pure (negsuc 0, bs)
        else modify (λ c. record c { bytes_received = add64 c.bytes_received (to_size bytes) })
          >> pure (bytes, bs)

  -- `auto idxSocketRcv(connection_.iSocketRcv_++)`, and its return to 0
  unfoldable pub take_rcv_socket : M W ℕ
  take_rcv_socket = do
    idx_socket_rcv ← gets (λ c. c.connection.i_socket_rcv)
    modify (
        with_connection
          (λ c. record c { i_socket_rcv = next_socket c.i_socket_rcv (length c.sockfd_rcv) }))
    pure idx_socket_rcv

  -- One `::recv` of `receive` into `data + bytesRcv`: the number of bytes, and the buffer
  unfoldable pub recv_rest : ℕ → List ℕ → ℕ → M W (Option ℕ × List ℕ)
  recv_rest idx_socket_rcv mem bytes_rcv = do
    socks ← gets (λ c. c.connection.sockfd_rcv)
    sock ← in_bounds (get_elem? socks idx_socket_rcv)
    buf_size ← gets (λ c. c.connection_info.tcp_buf_size)
    t1 ← call (λ w. (os.clock w, w))
    r ← call (os.recv sock (buf_size - bytes_rcv))
    t2 ← call (λ w. (os.clock w, w))
    modify (λ c. record c {
      received_time =
          if ltb 0 c.bytes_received then add64 c.received_time (sub64 t2 t1) else c.received_time;
    })
    elim r [
      | none ↦ pure (none, mem)
      | some bs ↦ in_bounds (write_at? mem bytes_rcv bs) >>= λ mem'. pure (some (length bs), mem')
    ]

  -- `while (bytesRcv < connectionInfo_.tcpBufSize_)`
  unfoldable pub recv_loop : ℕ → ℕ → List ℕ → ℕ → M W (ℤ × List ℕ)
  recv_loop zero idx_socket_rcv mem bytes_rcv = λ s. stuck
  recv_loop (suc fuel) idx_socket_rcv mem bytes_rcv = λ s.
      elim (ltb bytes_rcv s.client.connection_info.tcp_buf_size) [
        | true ↦
            (recv_rest idx_socket_rcv mem bytes_rcv >>= λ r. elim r.0 [
              | none ↦ set_error os >> pure (negsuc 0, r.1)
              | some n ↦ recv_loop fuel idx_socket_rcv r.1 (bytes_rcv + n)
            ])
              s
        | false ↦ done (pos bytes_rcv, mem) s
      ]

  -- What follows the loop where no error left the method.
  unfoldable pub receive_finish : ℤ × List ℕ → M W (ℤ × List ℕ)
  unfolding sleep_ms
  receive_finish (negsuc e, mem) = pure (negsuc e, mem)
  receive_finish (pos bytes_rcv, mem) = do
    modify (λ c. record c { bytes_received = add64 c.bytes_received bytes_rcv })
    sleep_ms os (← gets (λ c. c.connection_info.delay_rcv_ms))
    pure (pos bytes_rcv, mem)

  -- `TCPClient::receive`
  unfoldable pub receive : ℕ → Option (List ℕ) → ℕ → M W (ℤ × List ℕ)
  unfolding get_error take_rcv_socket
  receive fuel none len = get_error os >>= λ e. pure (if is_zero e then pos 0 else negsuc 1, [])
  receive fuel (some mem) len = get_error os >>= λ e.
      gets (λ c. c.connection_info.tcp_buf_size) >>= λ buf_size.
      if is_zero e
      then if ltb len buf_size
        then pure (pos 0, mem)
        else (take_rcv_socket >>= λ idx. recv_loop fuel idx mem 0 >>= receive_finish)
      else pure (negsuc 1, mem)

  -- `receive_need`: `for (;;)` over what stays to be received, into `data + (length - stayLength)`
  unfoldable pub receive_need_loop : ℕ → List ℕ → ℕ → ℕ → M W (ℤ × List ℕ)
  receive_need_loop zero mem len stay_length = λ s. stuck
  receive_need_loop (suc fuel) mem len stay_length =
      receive fuel (some (drop (len - stay_length) mem)) stay_length >>= λ r.
      let mem' = take (len - stay_length) mem ++ r.1 in
      elim r.0 [
        | negsuc e ↦ pure (negsuc e, mem')
        | pos n ↦ elim (stay_length - n == 0) [
          | true ↦ pure (pos len, mem')
          | false ↦ receive_need_loop fuel mem' len (stay_length - n)
        ]
      ]

  -- `TCPClient::receive_need`
  unfoldable pub receive_need : ℕ → Option (List ℕ) → ℕ → M W (ℤ × List ℕ)
  receive_need fuel none len = pure (pos 0, [])
  receive_need fuel (some mem) len = receive_need_loop fuel mem len len

  -- What `receive_tcp_io` makes of a block that it has received in `data_buf`: -2 where the caller's
  -- buffer may be too small, else the data is copied, and the loop ends behind a terminating block.
  -- `next` is the next round, given the caller's buffer, the block and the bytes read.
  unfoldable pub tcp_io_round :
      (List ℕ → List ℕ → ℕ → M W (ℤ × List ℕ)) → List ℕ → ℕ → ℕ → ℤ × List ℕ → M W (ℤ × List ℕ)
  tcp_io_round next pdata len read_bytes (negsuc e, data_buf) = pure (negsuc e, pdata)
  tcp_io_round next pdata len read_bytes (pos bytes, data_buf) =
      elim (ltb len (read_bytes + bytes)) [
        | true ↦ pure (negsuc 1, pdata)
        | false ↦ in_bounds (word_at? data_buf 0) >>= λ word0.
            in_bounds (word_at? data_buf 1) >>= λ word1.
            in_bounds (
              if word1 == DataTypes.data_block
              then copy_body pdata data_buf read_bytes word0
              else some pdata)
            >>= λ pdata'.
                in_bounds (is_terminate_block word1 (word_at? data_buf 2) (word_at? data_buf 3))
                >>= λ exit.
                    let read_bytes' =
                      if word1 == DataTypes.data_block
                      then (read_bytes + word0) % 2 ^ 64
                      else read_bytes in
                    elim exit [
                      | true ↦ pure (to_int read_bytes', pdata')
                      | false ↦ next pdata' data_buf read_bytes'
                    ]
      ]

  -- The loop of `receive_tcp_io`; the vector `dataBuf` keeps its bytes from round to round.
  unfoldable pub tcp_io_loop : ℕ → List ℕ → ℕ → ℕ → List ℕ → ℕ → M W (ℤ × List ℕ)
  tcp_io_loop zero pdata len buf_size data_buf read_bytes = λ s. stuck
  tcp_io_loop (suc fuel) pdata len buf_size data_buf read_bytes =
      receive fuel (some data_buf) buf_size
      >>= tcp_io_round
          (λ pdata' data_buf' read_bytes'.
            tcp_io_loop fuel pdata' len buf_size data_buf' read_bytes')
          pdata len read_bytes

  -- `TCPClient::receive_tcp_io`
  unfoldable pub receive_tcp_io : ℕ → Option (List ℕ) → ℕ → M W (ℤ × List ℕ)
  receive_tcp_io fuel none len = pure (pos 0, [])
  receive_tcp_io fuel (some pdata) len = gets (λ c. c.connection_info.tcp_buf_size) >>= λ buf_size.
      tcp_io_loop fuel pdata len buf_size (new_buffer buf_size) 0

  -- `receive_from_socket` into a buffer at an offset; `none` where an error is set afterwards.
  unfoldable pub receive_into : ℕ → List ℕ → ℕ → ℤ → M W (Option ℤ × List ℕ)
  unfolding receive_from_socket get_error
  receive_into sock mem off len = receive_from_socket sock len >>= λ r.
      in_bounds (write_at? mem off r.1) >>= λ mem'.
      get_error os >>= λ e. pure (if is_zero e then some r.0 else none, mem')

  -- A data block's body and the garbage behind it: `bytesOfData` and the buffer, or an error.
  unfoldable pub receive_body : ℕ → List ℕ → List ℕ → ℕ → ℕ → M W (Option ℤ × List ℕ)
  receive_body sock mem tmp_buf buf_size word0 = receive_into sock mem 0 (to_int word0) >>= λ r.
      elim r.0 [
        | none ↦ pure (none, r.1)
        | some bytes ↦
            receive_into sock tmp_buf 16
              (to_int ((buf_size + 2 ^ 32 - 16 + 2 ^ 32 - to_size bytes % 2 ^ 32) % 2 ^ 32))
            >>= λ g. pure (elim g.0 [ none ↦ none | some _ ↦ some bytes ], r.1)
      ]

  -- A block that holds no data: whether it ends the stream, or an error.
  unfoldable pub receive_service : ℕ → List ℕ → ℕ → ℕ → M W (Option Bool)
  receive_service sock tmp_buf buf_size word1 =
      receive_into sock tmp_buf 16 (to_int ((buf_size + 2 ^ 32 - 16) % 2 ^ 32)) >>= λ r. elim r.0 [
        | none ↦ pure none
        | some bytes ↦
            in_bounds (is_terminate_block word1 (word_at? r.1 2) (word_at? r.1 3)) >>= λ exit.
            pure (some exit)
      ]

  -- The end of `receive_data`: -1 after an error, else the sleep and the number of data bytes.
  unfoldable pub data_finish : Option ℤ → Bool → List ℕ → M W (ℤ × Bool × List ℕ)
  unfolding sleep_ms
  data_finish none is_terminate mem = pure (negsuc 0, is_terminate, mem)
  data_finish (some bytes_of_data) is_terminate mem =
      gets (λ c. c.connection_info.delay_rcv_ms) >>= λ ms.
      sleep_ms os ms >> pure (bytes_of_data, is_terminate, mem)

  -- `receive_data` from the header on: header, then the body of the block.
  unfoldable pub receive_block : ℕ → List ℕ → ℕ → M W (ℤ × Bool × List ℕ)
  receive_block sock mem buf_size = receive_into sock (new_buffer buf_size) 0 (pos 16) >>= λ h.
      elim h.0 [
        | none ↦ data_finish none false mem
        | some _ ↦ in_bounds (word_at? h.1 0) >>= λ word0. in_bounds (word_at? h.1 1) >>= λ word1.
            elim (word1 == DataTypes.data_block) [
              | true ↦ receive_body sock mem h.1 buf_size word0 >>= λ r. data_finish r.0 false r.1
              | false ↦ receive_service sock h.1 buf_size word1 >>= λ r. elim r [
                | none ↦ data_finish none false mem
                | some exit ↦ data_finish (some (pos 0)) exit mem
              ]
            ]
      ]

  -- `TCPClient::receive_data`: the value, `is_terminate` and the buffer afterwards.
  unfoldable pub receive_data : Option (List ℕ) → ℕ → Bool → M W (ℤ × Bool × List ℕ)
  unfolding get_error take_rcv_socket
  receive_data mem? len is_terminate = get_error os >>= λ e.
      gets (λ c. c.connection_info.tcp_buf_size) >>= λ buf_size.
      if is_zero e
      then elim mem? [
        | none ↦ pure (negsuc 0, is_terminate, [])
        | some mem ↦
            if ltb len buf_size
            then pure (negsuc 0, is_terminate, mem)
            else (take_rcv_socket >>= λ idx. gets (λ c. c.connection.sockfd_rcv) >>= λ socks.
                in_bounds (get_elem? socks idx) >>= λ sock. receive_block sock mem buf_size)
      ]
      else pure (negsuc 1, is_terminate, stored mem?)
