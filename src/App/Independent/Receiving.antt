-- ===== src/App/Independent/Receiving.antt =====
-- The receivers of src/tcpclientapp.cpp, behind `connect`, neither read nor change
-- `sockfd_send_`, its turn and its counters.
use ossim_tcp_client.Prelude.{
  ℕ, zero, suc, ◌*◌, ◌/◌, refl, List, [], Option, some, Bool, false, ℤ, pos, negsuc, ltb, ◌==◌,
  if◌then◌else◌, length,
}
use ossim_tcp_client.Client.Os.{Os}
use ossim_tcp_client.Client.Monad.{M, fault, gets, pure, ◌>>=◌}
use ossim_tcp_client.Client.Commutes.{
  Commutes, Commutes-bind, Commutes-gets, Commutes-in_bounds, Commutes-pure, Commutes-if,
  Commutes-elim,
}
use ossim_tcp_client.Client.Receive.{new_buffer}
use ossim_tcp_client.Client.Receive.Independent.{SendingPart, with_sending, receive-Commutes}
use ossim_tcp_client.Client.Receive.Independent.Data.{receive_data-Commutes}
use ossim_tcp_client.App.Receive.Data.{after_data, data_loop, receive_to_data, resize_words}
use ossim_tcp_client.App.Receive.{
  Reception, Target, ends_stream, after_receive, receive_blocks, receive_to_bin, receive_to_hex,
  receive_to_ds8, new_reception,
}

module _ {W : Type 0} (os : Os W) (p : SendingPart) where
  after_receive-Commutes :
      (part : List ℕ → Option (List ℕ)) (next : List ℕ → Reception → M W Reception)
      (got : Reception)
      → ((mem : List ℕ) (got' : Reception) → Commutes (with_sending p) (next mem got'))
      → (r : ℤ × List ℕ) → Commutes (with_sending p) (after_receive os part next got r)
  unfolding after_receive
  after_receive-Commutes part next got h (negsuc e, mem) = Commutes-pure got
  after_receive-Commutes part next got h (pos n, mem) =
      Commutes-bind (Commutes-in_bounds (part mem)) (λ bs.
        Commutes-bind (Commutes-in_bounds (ends_stream mem))
          (λ exit. Commutes-elim exit (Commutes-pure _) (h mem _)))

  receive_blocks-Commutes :
      (fuel : ℕ) (part : List ℕ → Option (List ℕ)) (buf_size : ℕ) (mem : List ℕ) (got : Reception)
      → Commutes (with_sending p) (receive_blocks os fuel part buf_size mem got)
  unfolding receive_blocks
  receive_blocks-Commutes zero part buf_size mem got = record { runs = λ s. refl }
  receive_blocks-Commutes (suc fuel) part buf_size mem got =
      Commutes-bind (receive-Commutes os p fuel (some mem) buf_size)
        (after_receive-Commutes part _ got (receive_blocks-Commutes fuel part buf_size))

  -- A receiver behind the test of its output file
  start-Commutes :
      (fuel : ℕ) (part : ℕ → List ℕ → Option (List ℕ)) (file : ℕ → List ℕ)
      (result : Reception → ℕ × List ℕ)
      → Commutes (with_sending p) (
          gets (λ c. c.connection_info.tcp_buf_size) >>= λ buf_size.
          receive_blocks os fuel
            (part buf_size)
            buf_size
            (new_buffer buf_size)
            (new_reception (file buf_size))
          >>= λ got. pure (result got))
  start-Commutes fuel part file result =
      Commutes-bind (Commutes-gets (λ c. c.connection_info.tcp_buf_size) (λ c. refl)) (λ buf_size.
        Commutes-bind
          (receive_blocks-Commutes fuel (part buf_size) buf_size (new_buffer buf_size)
            (new_reception (file buf_size)))
          (λ got. Commutes-pure (result got)))

  pub receive_to_bin-Commutes :
      (fuel : ℕ) (target : Target) → Commutes (with_sending p) (receive_to_bin os fuel target)
  unfolding receive_to_bin
  receive_to_bin-Commutes fuel Target.refused = Commutes-pure (0, [])
  receive_to_bin-Commutes fuel Target.no_file = start-Commutes fuel _ _ _
  receive_to_bin-Commutes fuel Target.created = start-Commutes fuel _ _ _

  pub receive_to_hex-Commutes :
      (fuel : ℕ) (target : Target) → Commutes (with_sending p) (receive_to_hex os fuel target)
  unfolding receive_to_hex
  receive_to_hex-Commutes fuel Target.refused = Commutes-pure (0, [])
  receive_to_hex-Commutes fuel Target.no_file = start-Commutes fuel _ _ _
  receive_to_hex-Commutes fuel Target.created = start-Commutes fuel _ _ _

  pub receive_to_ds8-Commutes :
      (fuel : ℕ) (target : Target) → Commutes (with_sending p) (receive_to_ds8 os fuel target)
  unfolding receive_to_ds8
  receive_to_ds8-Commutes fuel Target.refused = Commutes-pure (0, [])
  receive_to_ds8-Commutes fuel Target.no_file = start-Commutes fuel _ _ _
  receive_to_ds8-Commutes fuel Target.created = start-Commutes fuel _ _ _

  after_data-Commutes :
      (next : List ℕ → ℕ → ℕ → M W (ℕ × List ℕ)) (mem : List ℕ) (offset rcv_data_size : ℕ)
      → ((mem : List ℕ) (offset size : ℕ) → Commutes (with_sending p) (next mem offset size))
      → (r : ℤ × Bool × List ℕ)
      → Commutes (with_sending p) (after_data os next mem offset rcv_data_size r)
  unfolding after_data
  after_data-Commutes next mem offset rcv_data_size h (negsuc e, is_terminate, out) =
      Commutes-pure _
  after_data-Commutes next mem offset rcv_data_size h (pos bytes, is_terminate, out) =
      Commutes-elim is_terminate (Commutes-pure _) (h _ _ _)

  data_loop-Commutes :
      (fuel : ℕ) (mem : List ℕ) (offset rcv_data_size buf_size : ℕ)
      → Commutes (with_sending p) (data_loop os fuel mem offset rcv_data_size buf_size)
  unfolding data_loop
  data_loop-Commutes zero mem offset rcv_data_size buf_size = record { runs = λ s. refl }
  data_loop-Commutes (suc fuel) mem offset rcv_data_size buf_size =
      Commutes-bind (receive_data-Commutes os p _ buf_size false) (
        after_data-Commutes _ _ _ rcv_data_size
          (λ mem' offset' size. data_loop-Commutes fuel mem' offset' size buf_size))

  pub receive_to_data-Commutes :
      (fuel : ℕ) (data_out : List ℕ) → Commutes (with_sending p) (receive_to_data os fuel data_out)
  unfolding receive_to_data
  receive_to_data-Commutes fuel data_out =
      Commutes-bind (Commutes-gets (λ c. c.connection_info.tcp_buf_size) (λ c. refl)) (λ buf_size.
        let mem : List ℕ =
          if ltb (length data_out) 8 then resize_words (buf_size / 8 * 10) data_out else data_out in
        Commutes-if (length mem == 0) {m = λ s. fault} (record { runs = λ s. refl })
          (data_loop-Commutes fuel mem 0 0 buf_size))
