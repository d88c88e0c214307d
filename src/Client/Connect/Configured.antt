-- ===== src/Client/Connect/Configured.antt =====
-- `configSocket` (src/tcpclient.cpp) takes its parameters from the control block that the server sent
-- on the first socket, gives the vectors of sockets the sizes that these ask for, and goes on for no
-- longer than the time to wait.
use ossim_tcp_client.Prelude.{
  ℕ, suc, ◌/◌, ◌%◌, ◌^◌, ◌<◌, ◌≡◌, refl, subst, List, Option, none, some, Bool, true, false, ℤ, pos,
  pos_part, to_int, ◌==◌, if◌then◌else◌, arith, inl, inr, Bool-cases,
}
use ossim_tcp_client.Protocol.{ConnectionInfo}
use ossim_tcp_client.Client.Os.{Os}
use ossim_tcp_client.Client.Monad.{
  Client, Sys, M, in_bounds, Returns, Ends, Ends-bind, Returns-Ends, ◌>>=◌, pure, gets, modify,
  ◌>>◌,
}
use ossim_tcp_client.Client.Base.{set_error}
use ossim_tcp_client.Client.Send.Stream.{Broken, set_error-Broken}
use ossim_tcp_client.Client.Connect.{
  raise_buffers, recv_tail, register_socket, place_socket, config_socket, is_config, check,
  with_parameters, ControlBlock, control_block, wait_step_sec, recv_control, get_sock_opt,
  set_sock_opt, set_time_out,
}
use ossim_tcp_client.Client.Connect.Waiting.{ControlPost, Received, waiting_ends}
use ossim_tcp_client.Client.Connect.Shape.{
  Sizes, Gives, half_of, resize_sockets-Sizes, place_socket-Sizes,
}

-- The parameters are those of the control block `b`, which is valid.
pub record Asked (b : ControlBlock) (info : ConnectionInfo) : Type 0 where
  pub valid : is_config b ≡ true
  pub version : check b.version ≡ true
  pub buf_size : info.tcp_buf_size ≡ b.buf_size % 2 ^ 32
  pub n_sockets : info.n_sockets ≡ b.n_sockets % 256
  pub duplex : info.is_duplex_sockets ≡ (b.duplex == 1)

-- The parameters are those of a control block that `::recv` answered on socket `first`, the vectors
-- have their sizes, and the recorded error is `e`.
pub record Configured {W : Type 0} (os : Os W) (first : ℕ) (e : ℤ) (c : Client) : Type 0 where
  pub bytes : List ℕ
  pub came : Received os first bytes
  pub asked : Asked (control_block bytes) c.connection_info
  pub few : c.connection_info.n_sockets < 256
  pub sizes : Sizes c.connection_info.n_sockets c.connection_info.is_duplex_sockets c.connection
  pub last_error : c.last_error ≡ e

with_parameters-Configured :
    {W : Type 0} (os : Os W) (first : ℕ) (bs : List ℕ) (c : Client)
    → Received os first bs
    → is_config (control_block bs) ≡ true
    → check (control_block bs).version ≡ true
    → Configured os first c.last_error (with_parameters (control_block bs) c)
unfolding with_parameters
with_parameters-Configured os first bs c came valid version =
    let b : ControlBlock = control_block bs in
    record {
      bytes = bs;
      came = came;
      asked = record {
        valid = valid;
        version = version;
        buf_size = refl;
        n_sockets = refl;
        duplex = refl;
      };
      few = omega arith;
      sizes = resize_sockets-Sizes (b.n_sockets % 256) (b.duplex == 1) c.connection;
      last_error = refl;
    }

module _ {W : Type 0} where
  -- A step changes no field of the client.
  abbrev pub Same : {A : Type 0} → Client → A → Sys W → Type 0
  Same c a s = s.client ≡ c

module _ {W : Type 0} (os : Os W) (first : ℕ) where
  -- What registering a socket leaves
  abbrev pub ConfigPost : ℤ → Bool → Sys W → Type 0
  ConfigPost e true s =
      Configured os first e s.client
      × (0 < half_of s.client.connection_info.n_sockets s.client.connection_info.is_duplex_sockets)
  ConfigPost e false s = Unit {0}

  raise_buffers-Same :
      (sock : ℕ) (v : ℤ) (s : Sys W) → Returns (raise_buffers os sock v s) (Same s.client)
  unfolding raise_buffers get_sock_opt set_sock_opt
  raise_buffers-Same sock v s = ground arith

  in_bounds-Ends :
      {A : Type 0} (o : Option A) (P : A → Type 0) (s : Sys W)
      → Gives o P
      → Ends (in_bounds o s) (λ a s'. P a × (s'.client ≡ s.client))
  in_bounds-Ends none P s h = tt
  in_bounds-Ends (some a) P s h = (h, refl)

  recv_tail-Same : (sock : ℕ) (v : ℤ) (s : Sys W) → Ends (recv_tail os sock v s) (Same s.client)
  unfolding recv_tail
  recv_tail-Same sock v s = ground arith

  register-end :
      (sock id : ℕ) (e : ℤ) (s : Sys W) (res : Bool)
      → Configured os first e s.client
      → Ends
          ((if res
              then (gets (λ c.
                    place_socket c.connection_info.n_sockets c.connection_info.is_duplex_sockets id
                      sock c.connection)
                  >>= λ placed. in_bounds placed >>= λ connection.
                      modify (λ c. record c { connection = connection }) >> pure true)
              else (set_error os >> pure false))
            s)
          (ConfigPost e)
  register-end sock id e s false h =
      Ends-bind (set_error os) _ s (λ _ s'. Broken s'.client) _
        (Returns-Ends (set_error os s) _ (set_error-Broken os s)) (λ _ s' b. tt)
  register-end sock id e s true h =
      let n : ℕ = s.client.connection_info.n_sockets in
      let d : Bool = s.client.connection_info.is_duplex_sockets in
      Ends-bind (in_bounds (place_socket n d id sock s.client.connection)) _ s
        (λ c s'. (Sizes n d c × (0 < half_of n d)) × (s'.client ≡ s.client)) _
        (in_bounds-Ends _ (λ c. Sizes n d c × (0 < half_of n d)) s
          (place_socket-Sizes n d id sock s.client.connection h.sizes))
        (λ c s' p. (
          record {
            bytes = h.bytes;
            came = h.came;
            asked = rw p.1 h.asked;
            few = rw p.1 h.few;
            sizes = rw p.1 p.0.0;
            last_error = rw p.1 h.last_error;
          },
          rw p.1 p.0.1,
        ))

  register_socket-Configured :
      (sock id : ℕ) (e : ℤ) (s : Sys W)
      → Configured os first e s.client
      → Ends (register_socket os sock id s) (ConfigPost e)
  unfolding register_socket
  register_socket-Configured sock id e s h =
      let v : ℤ = to_int s.client.connection_info.tcp_buf_size in
      Ends-bind (raise_buffers os sock v >> recv_tail os sock v) _ s (Same s.client) _
        (Ends-bind (raise_buffers os sock v) _ s (Same s.client) _
          (Returns-Ends (raise_buffers os sock v s) (Same s.client) (raise_buffers-Same sock v s))
          (λ _ s' p.
            subst (λ c. Ends (recv_tail os sock v s') (Same c)) p (recv_tail-Same sock v s')))
        (λ res s' p. register-end sock id e s' res (rw p h))

  -- `configSocket` behind the control block `b`
  from_block :
      (sock idx : ℕ) (e : ℤ) (bs : List ℕ) (s : Sys W)
      → s.client.last_error ≡ e
      → Received os sock bs
      → (idx ≡ 0 → sock ≡ first)
      → (0 < idx → Configured os first e s.client)
      → let b : ControlBlock = control_block bs in
        Ends
          ((if is_config b
              then if idx == 0
                then if check b.version
                  then (modify (with_parameters b) >> register_socket os sock b.socket_id)
                  else pure false
                else register_socket os sock b.socket_id
              else (set_error os >> pure false))
            s)
          (ConfigPost e)
  from_block sock idx e bs s same came fst h =
      let b : ControlBlock = control_block bs in
      elim (Bool-cases (is_config b)) [
        | inr other ↦ rw other (
            Ends-bind (set_error os) _ s (λ _ s'. Broken s'.client) _
              (Returns-Ends (set_error os s) _ (set_error-Broken os s)) (λ _ s' b. tt))
        | inl config ↦ elim (Bool-cases (idx == 0)) [
          | inr later ↦
              rw (config, later)
                (register_socket-Configured sock b.socket_id e s (h (ground arith)))
          | inl is_first ↦ elim (Bool-cases (check b.version)) [
            | inr old ↦ rw (config, is_first, old) tt
            | inl good ↦
                rw (config, is_first, good)
                  (register_socket-Configured sock b.socket_id e _ (
                    subst (λ e. Configured os first e (with_parameters b s.client)) same
                      (with_parameters-Configured os first bs s.client
                        (subst (λ u. Received os u bs) (fst (ground arith)) came) config good)))
          ]
        ]
      ]

  after_control :
      (idx sock : ℕ) (e : ℤ) (s : Sys W)
      → s.client.last_error ≡ e
      → (idx ≡ 0 → sock ≡ first)
      → (0 < idx → Configured os first e s.client)
      → (bs? : Option (List ℕ)) (s' : Sys W) → ControlPost os sock s.client bs? s'
      → let run : M W Bool = elim bs? [
        | none ↦ pure false
        | some bs ↦
            let b : ControlBlock = control_block bs in
            if is_config b
            then if idx == 0
              then if check b.version
                then (modify (with_parameters b) >> register_socket os sock b.socket_id)
                else pure false
              else register_socket os sock b.socket_id
            else (set_error os >> pure false)
      ] in
        Ends (run s') (ConfigPost e)
  after_control idx sock e s same fst h none s' p = tt
  after_control idx sock e s same fst h (some bs) s' p =
      from_block sock idx e bs s' (rw p.0 same) p.1 fst (λ k. rw p.0 (h k))

  pub config_socket-Configured :
      (idx sock : ℕ) (e : ℤ) (s : Sys W)
      → s.client.last_error ≡ e
      → (idx ≡ 0 → sock ≡ first)
      → (0 < idx → Configured os first e s.client)
      → Ends
          (config_socket os
            (suc (pos_part s.client.connection_info.wait_connect / wait_step_sec))
            idx
            sock
            s)
          (ConfigPost e)
  unfolding config_socket set_time_out
  config_socket-Configured idx sock e s same fst h =
      let sec : ℕ = pos_part s.client.connection_info.wait_connect in
      let s₁ : Sys W = record s { world = os.set_time_out sock true (pos wait_step_sec) s.world } in
      Ends-bind (recv_control os (suc (sec / wait_step_sec)) sock sec) _ s₁
        (ControlPost os sock s.client) _
        (Returns-Ends (recv_control os (suc (sec / wait_step_sec)) sock sec s₁)
          (ControlPost os sock s.client) (waiting_ends os sock sec s₁).1)
        (after_control idx sock e s same fst h)
