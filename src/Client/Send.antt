-- ===== src/Client/Send.antt =====
-- Sending: `TCPClient::send`, `send_need`, `send_to_tcp_io`, `send_sync`, `send_terminate` and
-- `send_terminate_exit` (src/tcpclient.cpp). A buffer is the list of its bytes, `none` is a null
-- pointer, and `-1` is `negsuc 0`. A loop takes fuel, one unit a round.
pub mod Independent
pub mod Stream
pub mod Method
pub mod Blocks
pub mod TcpIo
pub mod Terminate
use ossim_tcp_client.Prelude.{
  ℕ, zero, suc, ◌+◌, ◌-◌, ◌*◌, ◌/◌, ◌%◌, ◌^◌, List, [], ◌∷◌, ◌++◌, Option, none, some, Bool, true,
  false, ℤ, pos, negsuc, ◌+ℤ◌, is_neg, ◌==◌, ltb, leb, if◌then◌else◌, length, get_elem?, drop,
  replicate, pos_part,
}
use ossim_tcp_client.Bytes.{u_int64_to_char8, read_at?, write_at?}
use ossim_tcp_client.Protocol.{Connection}
use ossim_tcp_client.Protocol.ControlTags
use ossim_tcp_client.Protocol.DataTypes
use ossim_tcp_client.Client.Os.{Os}
use ossim_tcp_client.Client.Monad.{
  Client, Sys, Run, stuck, fault, M, pure, ◌>>=◌, ◌>>◌, in_bounds, gets, modify, call,
}
use ossim_tcp_client.Client.Base.{
  add64, sub64, is_zero, with_connection, sleep_ms, get_error, set_error,
}

-- A block in memory, `std::vector<uint64_t> data(tcpBufSize_ / 8)`: its first two words and the
-- bytes from `&data[2]` on.
pub record Block : Type 0 where
  pub word0 : ℕ
  pub word1 : ℕ
  pub body : List ℕ

-- Where the vector has less than two words, the assignments to them are out of bounds.
unfoldable pub new_block : ℕ → Option Block
new_block buf_size =
    if leb 2 (buf_size / 8)
    then some (record { word0 = 0; word1 = 0; body = replicate (8 * (buf_size / 8) - 16) 0 })
    else none

-- The bytes that a `char *` to the block's start sees.
unfoldable pub block_bytes : Block → List ℕ
block_bytes b = u_int64_to_char8 b.word0 ++ (u_int64_to_char8 b.word1 ++ b.body)

-- The service blocks of `send_terminate` and `send_terminate_exit`: `tcpBufSize_ / 8` words, all 0
-- but the first three or four.
unfoldable pub terminate_block : ℕ → Option (List ℕ)
terminate_block buf_size =
    if leb 3 (buf_size / 8)
    then some (
        u_int64_to_char8 8
        ++ (u_int64_to_char8 DataTypes.service
            ++ (u_int64_to_char8 ControlTags.terminate ++ replicate (8 * (buf_size / 8) - 24) 0)))
    else none

unfoldable pub exit_block : ℕ → Option (List ℕ)
exit_block buf_size =
    if leb 4 (buf_size / 8)
    then some (
        u_int64_to_char8 (2 * 8)
        ++ (u_int64_to_char8 DataTypes.service
            ++ (u_int64_to_char8 ControlTags.exit
                ++ (u_int64_to_char8 ControlTags.terminate
                    ++ replicate (8 * (buf_size / 8) - 32) 0))))
    else none

-- `iSocketSend_++`, back to 0 at the number of sockets
abbrev pub next_socket : ℕ → ℕ → ℕ
next_socket i n = let j = add64 i 1 in if j == n then 0 else j

module _ {W : Type 0} (os : Os W) where
  -- One `::send` of what is left, with its time added to `sentTime_`.
  unfoldable pub send_rest : ℕ → List ℕ → ℕ → ℕ → M W (Option ℕ)
  send_rest idx_socket mem len bytes_sent = do
    socks ← gets (λ c. c.connection.sockfd_send)
    sock ← in_bounds (get_elem? socks idx_socket)
    rest ← in_bounds (read_at? mem bytes_sent (len - bytes_sent))
    t1 ← call (λ w. (os.clock w, w))
    bytes ← call (os.send sock rest)
    t2 ← call (λ w. (os.clock w, w))
    modify (λ c. record c { sent_time = add64 c.sent_time (sub64 t2 t1) })
    pure bytes

  -- `while (bytesSent < length)`: the bytes sent, or -1
  unfoldable pub send_loop : ℕ → ℕ → List ℕ → ℕ → ℕ → M W ℤ
  send_loop zero idx_socket mem len bytes_sent = λ s. stuck
  send_loop (suc fuel) idx_socket mem len bytes_sent = elim (ltb bytes_sent len) [
    | true ↦ send_rest idx_socket mem len bytes_sent >>= λ bytes. elim bytes [
      | none ↦ set_error os >> pure (negsuc 0)
      | some n ↦ send_loop fuel idx_socket mem len (bytes_sent + n)
    ]
    | false ↦ pure (pos bytes_sent)
  ]

  -- What follows the loop where no error left the method.
  unfoldable pub send_finish : ℤ → M W ℤ
  unfolding sleep_ms
  send_finish (negsuc e) = pure (negsuc e)
  send_finish (pos bytes_sent) = do
    modify (λ c. record c { bytes_sent = add64 c.bytes_sent bytes_sent })
    sleep_ms os (← gets (λ c. c.connection_info.delay_send_ms))
    pure (pos bytes_sent)

  -- `auto idxSocket(connection_.iSocketSend_++)`, and its return to 0
  unfoldable pub take_send_socket : M W ℕ
  take_send_socket = do
    idx_socket ← gets (λ c. c.connection.i_socket_send)
    modify (
        with_connection
          (λ c. record c { i_socket_send = next_socket c.i_socket_send (length c.sockfd_send) }))
    pure idx_socket

  -- `TCPClient::send`. A length below 0 sends nothing, as 0 does.
  unfoldable pub send : ℕ → Option (List ℕ) → ℕ → M W ℤ
  unfolding get_error take_send_socket
  send fuel mem? len = get_error os >>= λ e.
      if is_zero e
      then elim mem? [
        | none ↦ pure (pos 0)
        | some mem ↦ take_send_socket >>= λ idx. send_loop fuel idx mem len 0 >>= send_finish
      ]
      else pure (negsuc 1)

  -- `send_need`: `for (;;)` over what stays to be sent
  unfoldable pub send_need_loop : ℕ → List ℕ → ℕ → ℕ → M W ℤ
  send_need_loop zero mem len stay_length = λ s. stuck
  send_need_loop (suc fuel) mem len stay_length =
      send fuel (some (drop (len - stay_length) mem)) stay_length >>= λ r. elim r [
        | negsuc e ↦ pure (negsuc e)
        | pos n ↦ elim (stay_length - n == 0) [
          | true ↦ pure (pos len)
          | false ↦ send_need_loop fuel mem len (stay_length - n)
        ]
      ]

  -- `TCPClient::send_need`
  unfoldable pub send_need : ℕ → Option (List ℕ) → ℕ → M W ℤ
  send_need fuel none len = pure (pos 0)
  send_need fuel (some mem) len = send_need_loop fuel mem len len

  -- One round of `send_to_tcp_io`: `dataSize` and `data[0]` are lowered for the last bytes, the bytes
  -- are copied behind the header and the block is sent. What stood in the block before stays there
  -- behind them.
  unfoldable pub send_block : ℕ → List ℕ → ℕ → ℕ → Block → ℕ → M W (ℤ × Block)
  send_block fuel data_in buf_size read_bytes block data_size = do
    chunk ← in_bounds (read_at? data_in read_bytes data_size)
    body ← in_bounds (write_at? block.body 0 chunk)
    bytes_sent ← send fuel (some (block_bytes (record block { body = body }))) buf_size
    pure (bytes_sent, record block { body = body })

  -- The rest of a round: -1 after an error, the next round while bytes are left, else the length.
  -- `next` is the next round, given the block as this one leaves it.
  unfoldable pub after_block : ℕ → ℕ → (Block → M W ℤ) → ℤ × Block → M W ℤ
  after_block len read_bytes next (negsuc e, block) = pure (negsuc 0)
  after_block len read_bytes next (pos n, block) = elim (ltb 0 (len - read_bytes)) [
    | true ↦ next block
    | false ↦ pure (pos len)
  ]

  -- The loop of `send_to_tcp_io`. No round reads past `len`, so `len - …` is not cut off.
  unfoldable pub blocks_loop : ℕ → List ℕ → ℕ → ℕ → Block → ℕ → ℕ → ℕ → M W ℤ
  blocks_loop zero data_in len buf_size block data_size read_bytes need = λ s. stuck
  blocks_loop (suc fuel) data_in len buf_size block data_size read_bytes need =
      let last = ltb need (buf_size - 16) in
      let data_size' : ℕ = if last then need else data_size in
      let block' : Block = if last then record block { word0 = need } else block in
      send_block fuel data_in buf_size read_bytes block' data_size'
      >>= after_block len (read_bytes + data_size') (λ next.
        blocks_loop fuel data_in len buf_size next data_size' (read_bytes + data_size')
          (len - (read_bytes + data_size')))

  -- `TCPClient::send_to_tcp_io`
  unfoldable pub send_to_tcp_io : ℕ → Option (List ℕ) → ℕ → M W ℤ
  send_to_tcp_io fuel none len = pure (pos 0)
  send_to_tcp_io fuel (some data_in) len = do
    buf_size ← gets (λ c. c.connection_info.tcp_buf_size)
    block ← in_bounds (new_block buf_size)
    blocks_loop fuel data_in len buf_size
        (record block { word0 = buf_size - 16; word1 = DataTypes.data_block }) (buf_size - 16) 0 len

  -- `TCPClient::send_sync`
  unfoldable pub send_sync : ℕ → List ℕ → M W ℤ
  unfolding send_to_tcp_io
  send_sync fuel bytes =
      if length bytes == 0 then pure (pos 0) else send_to_tcp_io fuel (some bytes) (length bytes)

  -- `for (auto sock : connection_.sockfd_send_) bytes += send(…)`. The source adds in
  -- `int`; a sum beyond its range is not modelled.
  unfoldable pub send_each : ℕ → List ℕ → List ℕ → ℤ → M W ℤ
  send_each fuel mem [] bytes = pure bytes
  send_each fuel mem (sock ∷ socks) bytes =
      send fuel (some mem) (length mem) >>= λ r. send_each fuel mem socks (bytes +ℤ r)

  -- `TCPClient::send_terminate_exit`
  unfoldable pub send_terminate_exit : ℕ → M W ℤ
  send_terminate_exit fuel = do
    buf_size ← gets (λ c. c.connection_info.tcp_buf_size)
    mem ← in_bounds (exit_block buf_size)
    socks ← gets (λ c. c.connection.sockfd_send)
    send_each fuel mem socks (pos 0)

  -- `TCPClient::send_terminate`
  unfoldable pub send_terminate : ℕ → M W ℤ
  send_terminate fuel = gets (λ c. c.connection_info.exit) >>= λ exit.
      if exit
      then send_terminate_exit fuel
      else gets (λ c. c.connection_info.tcp_buf_size) >>= λ buf_size.
          in_bounds (terminate_block buf_size) >>= λ mem.
          gets (λ c. c.connection.sockfd_send) >>= λ socks. send_each fuel mem socks (pos 0)
