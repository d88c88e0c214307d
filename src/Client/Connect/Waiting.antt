-- ===== src/Client/Connect/Waiting.antt =====
-- The loops of `connect` and `configSocket` (src/tcpclient.cpp) that wait for the server.
use ossim_tcp_client.Prelude.{
  ℕ, zero, suc, ◌-◌, ◌/◌, ◌<◌, ◌≡◌, refl, ap, List, Option, none, some, Bool, true, false, ◌&&◌,
  ltb, leb, inl, inr, length, arith, Bool-cases, Option-cases,
}
use ossim_tcp_client.Client.Os.{Os}
use ossim_tcp_client.Client.Monad.{Client, Sys, Returns, Returns-bind}
use ossim_tcp_client.Client.Base.{set_error, sleep_ms}
use ossim_tcp_client.Client.Send.Stream.{Broken, set_error-Broken}
use ossim_tcp_client.Client.Receive.{stored}
use ossim_tcp_client.Client.Connect.{connect_wait, recv_control, wait_step_sec}

module _ {W : Type 0} (os : Os W) where
  -- A `::connect` of the socket to the client's server is accepted, and leaves the system at `after`.
  pub record Accepted (sock : ℕ) (c : Client) (after : W) : Type 0 where
    pub before : W
    pub answer : os.connect sock c.connection.server_addr before ≡ (true, after)

  pub record Refused (sock : ℕ) (c : Client) : Type 0 where
    pub before : W
    pub answer : (os.connect sock c.connection.server_addr before).0 ≡ false

  -- The loop ends with an accepted `::connect` as its last step and the client as it was, or, behind a
  -- refused one, with a broken client.
  abbrev pub WaitPost : ℕ → Client → Bool → Sys W → Type 0
  WaitPost sock c true s = (s.client ≡ c) × Accepted sock c s.world
  WaitPost sock c false s = Broken s.client × Refused sock c

  connect_wait-WaitPost :
      (fuel sock sec_left : ℕ) (s : Sys W)
      → sec_left / wait_step_sec < fuel
      → Returns (connect_wait os fuel sock sec_left s) (WaitPost sock s.client)
  unfolding connect_wait sleep_ms
  connect_wait-WaitPost zero sock sec_left s h = absurd (omega arith)
  connect_wait-WaitPost (suc fuel) sock sec_left s h =
      elim (Bool-cases (os.connect sock s.client.connection.server_addr s.world).0) [
        | inl accepted ↦
            let (_, after) = os.connect sock s.client.connection.server_addr s.world in
            rw (accepted, connect_wait)
              (refl, record { before = s.world; answer = ap (λ b. (b, after)) accepted })
        | inr refused ↦ elim (Bool-cases (leb wait_step_sec sec_left)) [
          | inl time ↦
              rw (refused, connect_wait, time)
                (connect_wait-WaitPost fuel sock (sec_left - wait_step_sec) _ (ground arith))
          | inr late ↦
              rw (refused, connect_wait, late)
                (Returns-bind (set_error os) _ _ (λ _ s'. Broken s'.client) _
                  (set_error-Broken os _)
                  (λ _ s' b. (b, record { before = s.world; answer = refused })))
        ]
      ]

  -- A `::recv` of 64 bytes on the socket answers `bs`.
  pub record Received (sock : ℕ) (bs : List ℕ) : Type 0 where
    pub before : W
    pub answer : (os.recv sock 64 before).0 ≡ some bs

  pub record ReceivedLess (sock : ℕ) : Type 0 where
    pub before : W
    pub less : length (stored (os.recv sock 64 before).0) < 64

  -- The loop ends with the bytes of a `::recv` and the client as it was, or, behind a `::recv` of less
  -- than a control block, with a broken client.
  abbrev pub ControlPost : ℕ → Client → Option (List ℕ) → Sys W → Type 0
  ControlPost sock c (some bs) s = (s.client ≡ c) × Received sock bs
  ControlPost sock c none s = Broken s.client × ReceivedLess sock

  recv_control-ControlPost :
      (fuel sock sec_left : ℕ) (s : Sys W)
      → sec_left / wait_step_sec < fuel
      → Returns (recv_control os fuel sock sec_left s) (ControlPost sock s.client)
  unfolding recv_control
  recv_control-ControlPost zero sock sec_left s h = absurd (omega arith)
  recv_control-ControlPost (suc fuel) sock sec_left s h =
      elim (Bool-cases
        (ltb (length (stored (os.recv sock 64 s.world).0)) 64 && ltb sec_left wait_step_sec)) [
          | inl late ↦
              rw (late, recv_control)
                (Returns-bind (set_error os) _ _ (λ _ s'. Broken s'.client) _
                  (set_error-Broken os _)
                  (λ _ s' b. (b, record { before = s.world; less = ground (arith, late) })))
          | inr time ↦ elim (Option-cases (os.recv sock 64 s.world).0) [
            | inl failed ↦
                rw (time, recv_control, failed)
                  (recv_control-ControlPost fuel sock (sec_left - wait_step_sec) _
                    (ground (arith, rw failed at time)))
            | inr (bs, got) ↦
                rw (time, recv_control, got) (refl, record { before = s.world; answer = got })
          ]
        ]

  -- With a round for each `wait_step_sec` of the time to wait, the loops of `connect` and of
  -- `configSocket` that wait for the server end. The one of `connect` answers true behind a `::connect`
  -- that is accepted, as its last step, and false behind one that is refused; the one of `configSocket`
  -- ends with the bytes that a `::recv` has answered, or else behind a `::recv` of less than 64 bytes.
  -- The client's fields are as they were, or else an error is recorded and the client disconnected.
  pub waiting_ends :
      (sock sec_left : ℕ) (s : Sys W)
      → Returns
          (connect_wait os (suc (sec_left / wait_step_sec)) sock sec_left s)
          (WaitPost sock s.client)
        × Returns
            (recv_control os (suc (sec_left / wait_step_sec)) sock sec_left s)
            (ControlPost sock s.client)
  waiting_ends sock sec_left s = (
    connect_wait-WaitPost (suc (sec_left / wait_step_sec)) sock sec_left s (omega arith),
    recv_control-ControlPost (suc (sec_left / wait_step_sec)) sock sec_left s (omega arith),
  )
