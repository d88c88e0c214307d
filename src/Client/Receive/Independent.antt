-- ===== src/Client/Receive/Independent.antt =====
-- Receiving (src/tcpclient.cpp) neither reads nor changes `sockfd_send_`, its turn and its counters.
pub mod Data
use ossim_tcp_client.Prelude.{
  ℕ, zero, suc, ◌-◌, ◌+◌, refl, List, [], Option, none, some, Bool, true, false, ℤ, pos, negsuc,
  ltb, if◌then◌else◌, get_elem?, length,
}
use ossim_tcp_client.Bytes.{write_at?}
use ossim_tcp_client.Client.Os.{Os}
use ossim_tcp_client.Client.Monad.{Client, done, pure, ◌>>=◌, ◌>>◌, in_bounds}
use ossim_tcp_client.Client.Base.{add64, sub64, is_zero, set_error, disconnect, sleep_ms, get_error}
use ossim_tcp_client.Client.Commutes.{
  Commutes, Commutes-bind, Commutes-gets, Commutes-in_bounds, Commutes-pure, Commutes-if,
  Commutes-call, Commutes-modify,
}
use ossim_tcp_client.Client.Receive.{recv_rest, recv_loop, receive_finish, take_rcv_socket, receive}

-- The fields for sending
pub record SendingPart : Type 0 where
  pub sockfd_send : List ℕ
  pub i_socket_send : ℕ
  pub bytes_sent : ℕ
  pub sent_time : ℕ

-- A client with other fields for sending
abbrev pub with_sending : SendingPart → Client → Client
with_sending p c = record c {
  connection = record c.connection { sockfd_send = p.sockfd_send; i_socket_send = p.i_socket_send };
  bytes_sent = p.bytes_sent;
  sent_time = p.sent_time;
}

module _ {W : Type 0} (os : Os W) (p : SendingPart) where
  pub set_error-Commutes : Commutes (with_sending p) (set_error os)
  unfolding set_error disconnect
  set_error-Commutes = record { runs = λ s. refl }

  stored-Commutes :
      (mem : List ℕ) (bytes_rcv : ℕ) (r : Option (List ℕ))
      → Commutes {W = W} (with_sending p) {A = Option ℕ × List ℕ} (elim r [
        | none ↦ pure (none, mem)
        | some bs ↦ in_bounds (write_at? mem bytes_rcv bs) >>= λ mem'. pure (some (length bs), mem')
      ])
  stored-Commutes mem bytes_rcv none = Commutes-pure (none, mem)
  stored-Commutes mem bytes_rcv (some bs) =
      Commutes-bind (Commutes-in_bounds (write_at? mem bytes_rcv bs))
        (λ mem'. Commutes-pure (some (length bs), mem'))

  recv_rest-Commutes :
      (idx : ℕ) (mem : List ℕ) (bytes_rcv : ℕ)
      → Commutes (with_sending p) (recv_rest os idx mem bytes_rcv)
  unfolding recv_rest
  recv_rest-Commutes idx mem bytes_rcv =
      Commutes-bind (Commutes-gets (λ c. c.connection.sockfd_rcv) (λ c. refl)) (λ socks.
        Commutes-bind (Commutes-in_bounds (get_elem? socks idx)) (λ sock.
          Commutes-bind (Commutes-gets (λ c. c.connection_info.tcp_buf_size) (λ c. refl))
            (λ buf_size. Commutes-bind (Commutes-call (λ w. (os.clock w, w))) (λ t1.
              Commutes-bind (Commutes-call (os.recv sock (buf_size - bytes_rcv))) (λ r.
                Commutes-bind (Commutes-call (λ w. (os.clock w, w))) (λ t2.
                  Commutes-bind
                    (Commutes-modify
                      (λ c. record c {
                        received_time =
                            if ltb 0 c.bytes_received
                            then add64 c.received_time (sub64 t2 t1)
                            else c.received_time;
                      })
                      (λ c. refl))
                    (λ u. stored-Commutes mem bytes_rcv r)))))))

  pub take_rcv_socket-Commutes : Commutes (with_sending p) (take_rcv_socket os)
  unfolding take_rcv_socket
  take_rcv_socket-Commutes = record { runs = λ s. refl }

  receive_finish-Commutes : (r : ℤ × List ℕ) → Commutes (with_sending p) (receive_finish os r)
  unfolding receive_finish sleep_ms
  receive_finish-Commutes (negsuc e, mem) = record { runs = λ s. refl }
  receive_finish-Commutes (pos n, mem) = record { runs = λ s. refl }

  after_recv :
      (fuel idx bytes_rcv : ℕ)
      → ((mem : List ℕ) (n : ℕ) → Commutes (with_sending p) (recv_loop os fuel idx mem n))
      → (r : Option ℕ × List ℕ)
      → Commutes (with_sending p) {A = ℤ × List ℕ} (elim r.0 [
        | none ↦ set_error os >> pure (negsuc 0, r.1)
        | some n ↦ recv_loop os fuel idx r.1 (bytes_rcv + n)
      ])
  after_recv fuel idx bytes_rcv next (none, mem) =
      Commutes-bind set_error-Commutes (λ u. Commutes-pure (negsuc 0, mem))
  after_recv fuel idx bytes_rcv next (some n, mem) = next mem (bytes_rcv + n)

  -- A round, where the test on the block size is made in front of it
  recv_round :
      (fuel idx bytes_rcv : ℕ) (mem : List ℕ) (b : Bool)
      → ((mem : List ℕ) (n : ℕ) → Commutes (with_sending p) (recv_loop os fuel idx mem n))
      → Commutes (with_sending p) {A = ℤ × List ℕ} (λ s. elim b [
        | true ↦
            (recv_rest os idx mem bytes_rcv >>= λ r. elim r.0 [
              | none ↦ set_error os >> pure (negsuc 0, r.1)
              | some n ↦ recv_loop os fuel idx r.1 (bytes_rcv + n)
            ])
              s
        | false ↦ done (pos bytes_rcv, mem) s
      ])
  recv_round fuel idx bytes_rcv mem true next =
      Commutes-bind (recv_rest-Commutes idx mem bytes_rcv) (after_recv fuel idx bytes_rcv next)
  recv_round fuel idx bytes_rcv mem false next = Commutes-pure (pos bytes_rcv, mem)

  recv_loop-Commutes :
      (fuel idx : ℕ) (mem : List ℕ) (bytes_rcv : ℕ)
      → Commutes (with_sending p) (recv_loop os fuel idx mem bytes_rcv)
  unfolding recv_loop
  recv_loop-Commutes zero idx mem bytes_rcv = record { runs = λ s. refl }
  recv_loop-Commutes (suc fuel) idx mem bytes_rcv = record {
    runs = λ s.
        (recv_round fuel idx bytes_rcv mem (ltb bytes_rcv s.client.connection_info.tcp_buf_size)
            (recv_loop-Commutes fuel idx)).runs
          s;
  }

  pub receive-Commutes :
      (fuel : ℕ) (mem? : Option (List ℕ)) (len : ℕ)
      → Commutes (with_sending p) (receive os fuel mem? len)
  unfolding receive get_error
  receive-Commutes fuel none len =
      Commutes-bind (Commutes-gets (λ c. c.last_error) (λ c. refl))
        (λ e. Commutes-pure (if is_zero e then pos 0 else negsuc 1, []))
  receive-Commutes fuel (some mem) len =
      Commutes-bind (Commutes-gets (λ c. c.last_error) (λ c. refl)) (λ e.
        Commutes-bind (Commutes-gets (λ c. c.connection_info.tcp_buf_size) (λ c. refl)) (λ buf_size.
          Commutes-if (is_zero e)
            (Commutes-if (ltb len buf_size) (Commutes-pure (pos 0, mem)) (
              Commutes-bind take_rcv_socket-Commutes
                (λ idx. Commutes-bind (recv_loop-Commutes fuel idx mem 0) receive_finish-Commutes)))
            (Commutes-pure (negsuc 1, mem))))
