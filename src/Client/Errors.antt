-- ===== src/Client/Errors.antt =====
-- Errors of `TCPClient` (src/tcpclient.cpp): a recorded error makes later calls refuse, and a
-- `receive_need` of less than a block does not come back.
use ossim_tcp_client.Prelude.{
  ℕ, zero, suc, ◌-◌, ◌*◌, ◌<◌, ◌≡◌, refl, List, [], ◌∷◌, Bool, if◌then◌else◌, some, true, false,
  pos, negsuc, ◌==◌, ◌+ℤ◌, length, arith, lt→ltb, ◌/◌, ◌≤◌, ℤ, sub_ℕ, leb,
}
use ossim_tcp_client.Client.Os.{Os}
use ossim_tcp_client.Client.Monad.{Sys, Run, M, done, stuck, ◌>>=◌}
use ossim_tcp_client.Client.Base.{is_zero}
use ossim_tcp_client.Client.Send.{
  send, send_each, send_terminate, send_terminate_exit, terminate_block, exit_block,
}
use ossim_tcp_client.Client.Receive.{receive, receive_need, receive_need_loop}

refuse_none : (z : ℤ) → z +ℤ sub_ℕ 0 (2 * 0) ≡ z
unfolding ◌+ℤ◌
refuse_none (pos n) = ground arith
refuse_none (negsuc n) = ground arith

refuse_one : (z : ℤ) (n : ℕ) → (z +ℤ negsuc 1) +ℤ sub_ℕ 0 (2 * n) ≡ z +ℤ sub_ℕ 0 (2 * suc n)
unfolding ◌+ℤ◌
refuse_one (pos k) n = ground arith
refuse_one (negsuc k) n = ground arith

refuse_from_zero : (n : ℕ) → pos 0 +ℤ sub_ℕ 0 (2 * n) ≡ sub_ℕ 0 (2 * n)
unfolding ◌+ℤ◌
refuse_from_zero n = ground arith

either :
    {W A : Type 0} (b : Bool) (m n : M W A) (s : Sys W) (r : Run W A)
    → m s ≡ r
    → n s ≡ r
    → (if b then m else n) s ≡ r
either true m n s r e f = e
either false m n s r e f = f

module _ {W : Type 0} (os : Os W) where
  -- The client has recorded an error.
  abbrev pub HasFailed : Sys W → Type 0
  HasFailed s = is_zero s.client.last_error ≡ false

  pub send-refused :
      (fuel len : ℕ) (mem : List ℕ) (s : Sys W)
      → HasFailed s
      → send os fuel (some mem) len s ≡ done (negsuc 1) s
  unfolding send
  send-refused fuel len mem s h = rw h

  pub receive-refused :
      (fuel len : ℕ) (mem : List ℕ) (s : Sys W)
      → HasFailed s
      → receive os fuel (some mem) len s ≡ done (negsuc 1, mem) s
  unfolding receive
  receive-refused fuel len mem s h = rw h

  pub receive_need-refused :
      (fuel len : ℕ) (mem : List ℕ) (s : Sys W)
      → HasFailed s
      → receive_need os (suc fuel) (some mem) len s ≡ done (negsuc 1, mem) s
  unfolding receive_need receive_need_loop
  receive_need-refused fuel len mem s h =
      let z : len - len ≡ 0 = omega arith in rw (z, receive-refused fuel len mem s h, ◌>>=◌, z)

  -- -2 for each of `n` sockets
  abbrev pub refusals : ℕ → ℤ
  refusals n = sub_ℕ 0 (2 * n)

  send_each-refused :
      (fuel : ℕ) (mem socks : List ℕ) (sum : ℤ) (s : Sys W)
      → HasFailed s
      → send_each os fuel mem socks sum s ≡ done (sum +ℤ refusals (length socks)) s
  unfolding send_each
  send_each-refused fuel mem [] sum s h = rw (refuse_none sum) refl
  send_each-refused fuel mem (sock ∷ socks) sum s h = rw (
    send-refused fuel (length mem) mem s h,
    ◌>>=◌,
    send_each-refused fuel mem socks (sum +ℤ negsuc 1) s h,
    refuse_one sum (length socks),
  )

  -- Once an error is recorded, `send_terminate` and `send_terminate_exit` with blocks of at least 32
  -- bytes answer -2 for each sending socket, -4 for two of them, and change nothing: they add the
  -- results of their sends up. So does their loop from any sum so far.
  pub error_adds_up :
      (fuel : ℕ) (mem socks : List ℕ) (sum : ℤ) (s : Sys W)
      → HasFailed s
      → 32 ≤ s.client.connection_info.tcp_buf_size
      → (send_terminate os fuel s ≡ done (refusals (length s.client.connection.sockfd_send)) s)
        × (send_terminate_exit os fuel s
            ≡ done (refusals (length s.client.connection.sockfd_send)) s)
        × (send_each os fuel mem socks sum s ≡ done (sum +ℤ refusals (length socks)) s)
  unfolding send_terminate send_terminate_exit terminate_block exit_block
  error_adds_up fuel mem socks sum s h size =
      let n : ℕ = s.client.connection_info.tcp_buf_size in
      let three : leb 3 (n / 8) ≡ true = ground arith in
      let four : leb 4 (n / 8) ≡ true = ground arith in
      let out : List ℕ = s.client.connection.sockfd_send in
      let zero_add : pos 0 +ℤ refusals (length out) ≡ refusals (length out) =
        refuse_from_zero (length out) in
      let exits : send_terminate_exit os fuel s ≡ done (refusals (length out)) s =
        rw (four, send_each-refused fuel _ out (pos 0) s h, zero_add) in
      (
        either s.client.connection_info.exit (send_terminate_exit os fuel) _ s _ exits
            (rw (three, send_each-refused fuel _ out (pos 0) s h, zero_add)),
        exits,
        send_each-refused fuel mem socks sum s h,
      )

  receive-short :
      (fuel len : ℕ) (mem : List ℕ) (s : Sys W)
      → is_zero s.client.last_error ≡ true
      → len < s.client.connection_info.tcp_buf_size
      → receive os fuel (some mem) len s ≡ done (pos 0, mem) s
  unfolding receive
  receive-short fuel len mem s e h = rw (e, lt→ltb len s.client.connection_info.tcp_buf_size h)

  receive_need_loop-short :
      (fuel len : ℕ) (mem : List ℕ) (s : Sys W)
      → is_zero s.client.last_error ≡ true
      → 0 < len
      → len < s.client.connection_info.tcp_buf_size
      → receive_need_loop os fuel mem len len s ≡ stuck
  unfolding receive_need_loop
  receive_need_loop-short zero len mem s e p h = refl
  receive_need_loop-short (suc fuel) len mem s e p h =
      let z : len - len ≡ 0 = omega arith in
      let w : len - 0 ≡ len = omega arith in
      let n : (len == 0) ≡ false = ground arith in
      rw (z, receive-short fuel len mem s e h, ◌>>=◌, w, n, z, w)
        (receive_need_loop-short fuel len mem s e p h)

  -- `receive` refuses a buffer that is smaller than a block with 0, so on a client without a
  -- recorded error `receive_need` of some bytes, but less than a block, asks again for ever: no
  -- fuel is enough.
  pub receive_need_short :
      (fuel len : ℕ) (mem : List ℕ) (s : Sys W)
      → is_zero s.client.last_error ≡ true
      → 0 < len
      → len < s.client.connection_info.tcp_buf_size
      → receive_need os fuel (some mem) len s ≡ stuck
  unfolding receive_need
  receive_need_short fuel len mem s e p h = receive_need_loop-short fuel len mem s e p h
