-- ===== src/Client/Receive/Independent/Data.antt =====
-- `receive_data` (src/tcpclient.cpp) neither reads nor changes the fields of the client for sending.
use ossim_tcp_client.Prelude.{
  ℕ, refl, List, Option, none, some, Bool, true, false, ℤ, pos, negsuc, to_int, ltb, ◌==◌, length,
  get_elem?,
}
use ossim_tcp_client.Bytes.{word_at?, write_at?}
use ossim_tcp_client.Protocol.DataTypes
use ossim_tcp_client.Client.Os.{Os}
use ossim_tcp_client.Client.Monad.{pure, ◌>>=◌, in_bounds}
use ossim_tcp_client.Client.Base.{add64, is_zero, sleep_ms, get_error}
use ossim_tcp_client.Client.Commutes.{
  Commutes, Commutes-bind, Commutes-gets, Commutes-in_bounds, Commutes-pure, Commutes-if,
  Commutes-elim, Commutes-call, Commutes-modify,
}
use ossim_tcp_client.Client.Receive.{
  ltb_ℤ, to_size, stored, new_buffer, is_terminate_block, receive_from_socket, receive_into,
  receive_body, receive_service, data_finish, receive_block, receive_data,
}
use ossim_tcp_client.Client.Receive.Independent.{
  SendingPart, with_sending, set_error-Commutes, take_rcv_socket-Commutes,
}

module _ {W : Type 0} (os : Os W) (p : SendingPart) where
  receive_from_socket-Commutes :
      (socket : ℕ) (len : ℤ) → Commutes (with_sending p) (receive_from_socket os socket len)
  unfolding receive_from_socket
  receive_from_socket-Commutes socket len =
      Commutes-bind (Commutes-call (os.recv socket (to_size len))) (λ r.
        let bytes : ℤ = elim r [ none ↦ negsuc 0 | some bs ↦ to_int (length bs) ] in
        Commutes-if (ltb_ℤ bytes len)
          (Commutes-bind (set_error-Commutes os p) (λ u. Commutes-pure (negsuc 0, stored r)))
          (Commutes-bind
            (Commutes-modify
              (λ c. record c { bytes_received = add64 c.bytes_received (to_size bytes) })
              (λ c. refl))
            (λ u. Commutes-pure (bytes, stored r))))

  receive_into-Commutes :
      (sock : ℕ) (mem : List ℕ) (off : ℕ) (len : ℤ)
      → Commutes (with_sending p) (receive_into os sock mem off len)
  unfolding receive_into get_error
  receive_into-Commutes sock mem off len =
      Commutes-bind (receive_from_socket-Commutes sock len) (λ r.
        Commutes-bind (Commutes-in_bounds (write_at? mem off r.1)) (λ mem'.
          Commutes-bind (Commutes-gets (λ c. c.last_error) (λ c. refl)) (λ e. Commutes-pure _)))

  after_body :
      (sock : ℕ) (tmp_buf : List ℕ) (rest : ℤ → ℤ) (r : Option ℤ × List ℕ)
      → Commutes {W = W} (with_sending p) {A = Option ℤ × List ℕ} (elim r.0 [
        | none ↦ pure (none, r.1)
        | some bytes ↦ receive_into os sock tmp_buf 16 (rest bytes) >>= λ g.
            pure (elim g.0 [ none ↦ none | some _ ↦ some bytes ], r.1)
      ])
  after_body sock tmp_buf rest (none, mem) = Commutes-pure (none, mem)
  after_body sock tmp_buf rest (some bytes, mem) =
      Commutes-bind (receive_into-Commutes sock tmp_buf 16 (rest bytes)) (λ g. Commutes-pure _)

  receive_body-Commutes :
      (sock : ℕ) (mem tmp_buf : List ℕ) (buf_size word0 : ℕ)
      → Commutes (with_sending p) (receive_body os sock mem tmp_buf buf_size word0)
  unfolding receive_body
  receive_body-Commutes sock mem tmp_buf buf_size word0 =
      Commutes-bind (receive_into-Commutes sock mem 0 (to_int word0)) (after_body sock tmp_buf _)

  after_service :
      (word1 : ℕ) (r : Option ℤ × List ℕ)
      → Commutes {W = W} (with_sending p) {A = Option Bool} (elim r.0 [
        | none ↦ pure none
        | some bytes ↦
            in_bounds (is_terminate_block word1 (word_at? r.1 2) (word_at? r.1 3)) >>= λ exit.
            pure (some exit)
      ])
  after_service word1 (none, mem) = Commutes-pure none
  after_service word1 (some bytes, mem) =
      Commutes-bind
        (Commutes-in_bounds (is_terminate_block word1 (word_at? mem 2) (word_at? mem 3)))
        (λ exit. Commutes-pure (some exit))

  receive_service-Commutes :
      (sock : ℕ) (tmp_buf : List ℕ) (buf_size word1 : ℕ)
      → Commutes (with_sending p) (receive_service os sock tmp_buf buf_size word1)
  unfolding receive_service
  receive_service-Commutes sock tmp_buf buf_size word1 =
      Commutes-bind (receive_into-Commutes sock tmp_buf 16 _) (after_service word1)

  data_finish-Commutes :
      (bytes : Option ℤ) (is_terminate : Bool) (mem : List ℕ)
      → Commutes (with_sending p) (data_finish os bytes is_terminate mem)
  unfolding data_finish sleep_ms
  data_finish-Commutes none is_terminate mem = record { runs = λ s. refl }
  data_finish-Commutes (some bytes) is_terminate mem = record { runs = λ s. refl }

  after_exit :
      (mem : List ℕ) (r : Option Bool)
      → Commutes {W = W} (with_sending p) {A = ℤ × Bool × List ℕ} (elim r [
        | none ↦ data_finish os none false mem
        | some exit ↦ data_finish os (some (pos 0)) exit mem
      ])
  after_exit mem none = data_finish-Commutes none false mem
  after_exit mem (some exit) = data_finish-Commutes (some (pos 0)) exit mem

  after_header :
      (sock : ℕ) (mem : List ℕ) (buf_size : ℕ) (h : Option ℤ × List ℕ)
      → Commutes {W = W} (with_sending p) {A = ℤ × Bool × List ℕ} (elim h.0 [
        | none ↦ data_finish os none false mem
        | some _ ↦ in_bounds (word_at? h.1 0) >>= λ word0. in_bounds (word_at? h.1 1) >>= λ word1.
            elim (word1 == DataTypes.data_block) [
              | true ↦
                  receive_body os sock mem h.1 buf_size word0 >>= λ r. data_finish os r.0 false r.1
              | false ↦ receive_service os sock h.1 buf_size word1 >>= λ r. elim r [
                | none ↦ data_finish os none false mem
                | some exit ↦ data_finish os (some (pos 0)) exit mem
              ]
            ]
      ])
  after_header sock mem buf_size (none, tmp) = data_finish-Commutes none false mem
  after_header sock mem buf_size (some _, tmp) =
      Commutes-bind (Commutes-in_bounds (word_at? tmp 0)) (λ word0.
        Commutes-bind (Commutes-in_bounds (word_at? tmp 1)) (λ word1.
          Commutes-elim (word1 == DataTypes.data_block)
            (Commutes-bind (receive_body-Commutes sock mem tmp buf_size word0)
              (λ r. data_finish-Commutes r.0 false r.1))
            (Commutes-bind (receive_service-Commutes sock tmp buf_size word1) (after_exit mem))))

  receive_block-Commutes :
      (sock : ℕ) (mem : List ℕ) (buf_size : ℕ)
      → Commutes (with_sending p) (receive_block os sock mem buf_size)
  unfolding receive_block
  receive_block-Commutes sock mem buf_size =
      Commutes-bind (receive_into-Commutes sock (new_buffer buf_size) 0 (pos 16))
        (after_header sock mem buf_size)

  pub receive_data-Commutes :
      (mem : List ℕ) (len : ℕ) (is_terminate : Bool)
      → Commutes (with_sending p) (receive_data os (some mem) len is_terminate)
  unfolding receive_data get_error
  receive_data-Commutes mem len is_terminate =
      Commutes-bind (Commutes-gets (λ c. c.last_error) (λ c. refl)) (λ e.
        Commutes-bind (Commutes-gets (λ c. c.connection_info.tcp_buf_size) (λ c. refl)) (λ buf_size.
          Commutes-if (is_zero e)
            (Commutes-if (ltb len buf_size) (Commutes-pure _) (
              Commutes-bind (take_rcv_socket-Commutes os p) (λ idx.
                Commutes-bind (Commutes-gets (λ c. c.connection.sockfd_rcv) (λ c. refl)) (λ socks.
                  Commutes-bind (Commutes-in_bounds (get_elem? socks idx))
                    (λ sock. receive_block-Commutes sock mem buf_size)))))
            (Commutes-pure _)))
