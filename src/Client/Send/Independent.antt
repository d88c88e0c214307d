-- ===== src/Client/Send/Independent.antt =====
-- Sending (src/tcpclient.cpp) neither reads nor changes `sockfd_rcv_`, its turn and its counters.
use ossim_tcp_client.Prelude.{
  ℕ, zero, suc, ◌-◌, ◌+◌, refl, if◌then◌else◌, List, [], ◌∷◌, Option, none, some, ℤ, pos, negsuc,
  ltb, get_elem?, ◌+ℤ◌, length,
}
use ossim_tcp_client.Bytes.{read_at?, write_at?}
use ossim_tcp_client.Client.Os.{Os}
use ossim_tcp_client.Client.Monad.{Client, M, pure, ◌>>=◌, ◌>>◌, in_bounds, gets}
use ossim_tcp_client.Client.Base.{is_zero, set_error, disconnect, sleep_ms, get_error}
use ossim_tcp_client.Client.Commutes.{
  Commutes, Commutes-bind, Commutes-gets, Commutes-in_bounds, Commutes-pure, Commutes-if,
  Commutes-elim,
}
use ossim_tcp_client.Client.Send.{
  send_rest, send_loop, send_finish, take_send_socket, send, send_each, send_terminate,
  terminate_block, exit_block, send_terminate_exit, Block, block_bytes, send_block, after_block,
  blocks_loop,
}

-- The fields for receiving
pub record ReceivingPart : Type 0 where
  pub sockfd_rcv : List ℕ
  pub i_socket_rcv : ℕ
  pub bytes_received : ℕ
  pub received_time : ℕ

-- A client with other fields for receiving
abbrev pub with_receiving : ReceivingPart → Client → Client
with_receiving p c = record c {
  connection = record c.connection { sockfd_rcv = p.sockfd_rcv; i_socket_rcv = p.i_socket_rcv };
  bytes_received = p.bytes_received;
  received_time = p.received_time;
}

module _ {W : Type 0} (os : Os W) (p : ReceivingPart) where
  set_error-Commutes : Commutes (with_receiving p) (set_error os)
  unfolding set_error disconnect
  set_error-Commutes = record { runs = λ s. refl }

  send_rest-Commutes :
      (idx : ℕ) (mem : List ℕ) (len bytes_sent : ℕ)
      → Commutes (with_receiving p) (send_rest os idx mem len bytes_sent)
  unfolding send_rest
  send_rest-Commutes idx mem len bytes_sent =
      Commutes-bind (Commutes-gets (λ c. c.connection.sockfd_send) (λ c. refl)) (λ socks.
        Commutes-bind (Commutes-in_bounds (get_elem? socks idx)) (λ sock.
          Commutes-bind (Commutes-in_bounds (read_at? mem bytes_sent (len - bytes_sent)))
            (λ rest. record { runs = λ s. refl })))

  after_rest :
      (fuel idx : ℕ) (mem : List ℕ) (len bytes_sent : ℕ)
      → ((n : ℕ) → Commutes (with_receiving p) (send_loop os fuel idx mem len n))
      → (bytes : Option ℕ)
      → Commutes (with_receiving p) (elim bytes [
        | none ↦ set_error os >> pure (negsuc 0)
        | some n ↦ send_loop os fuel idx mem len (bytes_sent + n)
      ])
  after_rest fuel idx mem len bytes_sent next none =
      Commutes-bind set_error-Commutes (λ u. Commutes-pure (negsuc 0))
  after_rest fuel idx mem len bytes_sent next (some n) = next (bytes_sent + n)

  send_loop-Commutes :
      (fuel idx : ℕ) (mem : List ℕ) (len bytes_sent : ℕ)
      → Commutes (with_receiving p) (send_loop os fuel idx mem len bytes_sent)
  unfolding send_loop
  send_loop-Commutes zero idx mem len bytes_sent = record { runs = λ s. refl }
  send_loop-Commutes (suc fuel) idx mem len bytes_sent =
      Commutes-elim (ltb bytes_sent len)
        (Commutes-bind (send_rest-Commutes idx mem len bytes_sent)
          (after_rest fuel idx mem len bytes_sent (send_loop-Commutes fuel idx mem len)))
        (Commutes-pure (pos bytes_sent))

  send_finish-Commutes : (r : ℤ) → Commutes (with_receiving p) (send_finish os r)
  unfolding send_finish sleep_ms
  send_finish-Commutes (negsuc e) = record { runs = λ s. refl }
  send_finish-Commutes (pos n) = record { runs = λ s. refl }

  take_send_socket-Commutes : Commutes (with_receiving p) (take_send_socket os)
  unfolding take_send_socket
  take_send_socket-Commutes = record { runs = λ s. refl }

  pub send-Commutes :
      (fuel : ℕ) (mem? : Option (List ℕ)) (len : ℕ)
      → Commutes (with_receiving p) (send os fuel mem? len)
  unfolding send get_error
  send-Commutes fuel none len =
      Commutes-bind (Commutes-gets (λ c. c.last_error) (λ c. refl))
        (λ e. Commutes-if (is_zero e) (Commutes-pure (pos 0)) (Commutes-pure (negsuc 1)))
  send-Commutes fuel (some mem) len =
      Commutes-bind (Commutes-gets (λ c. c.last_error) (λ c. refl)) (λ e.
        Commutes-if (is_zero e)
          (Commutes-bind take_send_socket-Commutes
            (λ idx. Commutes-bind (send_loop-Commutes fuel idx mem len 0) send_finish-Commutes))
          (Commutes-pure (negsuc 1)))

  send_each-Commutes :
      (fuel : ℕ) (mem socks : List ℕ) (bytes : ℤ)
      → Commutes (with_receiving p) (send_each os fuel mem socks bytes)
  unfolding send_each
  send_each-Commutes fuel mem [] bytes = Commutes-pure bytes
  send_each-Commutes fuel mem (sock ∷ socks) bytes =
      Commutes-bind (send-Commutes fuel (some mem) (length mem))
        (λ r. send_each-Commutes fuel mem socks (bytes +ℤ r))

  -- `send_terminate` and `send_terminate_exit`, with the blocks that they send
  each_socket :
      (fuel : ℕ) (block : ℕ → Option (List ℕ))
      → Commutes (with_receiving p) (
          gets (λ c. c.connection_info.tcp_buf_size) >>= λ buf_size.
          in_bounds (block buf_size) >>= λ mem.
          gets (λ c. c.connection.sockfd_send) >>= λ socks. send_each os fuel mem socks (pos 0))
  each_socket fuel block =
      Commutes-bind (Commutes-gets (λ c. c.connection_info.tcp_buf_size) (λ c. refl)) (λ buf_size.
        Commutes-bind (Commutes-in_bounds (block buf_size)) (λ mem.
          Commutes-bind (Commutes-gets (λ c. c.connection.sockfd_send) (λ c. refl))
            (λ socks. send_each-Commutes fuel mem socks (pos 0))))

  pub send_terminate-Commutes : (fuel : ℕ) → Commutes (with_receiving p) (send_terminate os fuel)
  unfolding send_terminate send_terminate_exit
  send_terminate-Commutes fuel =
      Commutes-bind (Commutes-gets (λ c. c.connection_info.exit) (λ c. refl))
        (λ exit. Commutes-if exit (each_socket fuel exit_block) (each_socket fuel terminate_block))

  send_block-Commutes :
      (fuel : ℕ) (data_in : List ℕ) (buf_size read_bytes : ℕ) (block : Block) (data_size : ℕ)
      → Commutes (with_receiving p) (send_block os fuel data_in buf_size read_bytes block data_size)
  unfolding send_block
  send_block-Commutes fuel data_in buf_size read_bytes block data_size =
      Commutes-bind (Commutes-in_bounds (read_at? data_in read_bytes data_size)) (λ chunk.
        Commutes-bind (Commutes-in_bounds (write_at? block.body 0 chunk)) (λ body.
          Commutes-bind
            (send-Commutes fuel (some (block_bytes (record block { body = body }))) buf_size)
            (λ bytes_sent. Commutes-pure _)))

  after_block-Commutes :
      (len read_bytes : ℕ) (next : Block → M W ℤ)
      → ((block : Block) → Commutes (with_receiving p) (next block))
      → (r : ℤ × Block) → Commutes (with_receiving p) (after_block os len read_bytes next r)
  unfolding after_block
  after_block-Commutes len read_bytes next h (negsuc e, block) = Commutes-pure (negsuc 0)
  after_block-Commutes len read_bytes next h (pos n, block) =
      Commutes-elim (ltb 0 (len - read_bytes)) (h block) (Commutes-pure (pos len))

  pub blocks_loop-Commutes :
      (fuel : ℕ) (data_in : List ℕ) (len buf_size : ℕ) (block : Block)
      (data_size read_bytes need : ℕ)
      → Commutes
          (with_receiving p)
          (blocks_loop os fuel data_in len buf_size block data_size read_bytes need)
  unfolding blocks_loop
  blocks_loop-Commutes zero data_in len buf_size block data_size read_bytes need = record {
    runs = λ s. refl;
  }
  blocks_loop-Commutes (suc fuel) data_in len buf_size block data_size read_bytes need =
      let last = ltb need (buf_size - 16) in
      let data_size' : ℕ = if last then need else data_size in
      let block' : Block = if last then record block { word0 = need } else block in
      Commutes-bind (send_block-Commutes fuel data_in buf_size read_bytes block' data_size') (
        after_block-Commutes len (read_bytes + data_size') _ (λ next.
          blocks_loop-Commutes fuel data_in len buf_size next data_size' (read_bytes + data_size')
            (len - (read_bytes + data_size'))))
