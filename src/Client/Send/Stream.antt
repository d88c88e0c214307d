-- ===== src/Client/Send/Stream.antt =====
-- What `TCPClient::send` does to the stream of its socket: the loop of `::send` calls either hands
-- over all bytes in order, or leaves the client with an error and disconnected.
use ossim_tcp_client.Prelude.{
  ℕ, zero, suc, ◌+◌, ◌-◌, ◌≤◌, ◌<◌, ◌≡◌, refl, sym, ◌∙◌, ◌≢◌, List, ◌++◌, Option, some, false, ℤ,
  pos, negsuc, ltb, length, get_elem?, drop, arith, append_assoc, Option-cases, inl, inr, take_all,
  drop_all, length-drop, drop-drop, take-append-drop, append-nil, le→leb, Bool-cases,
}
use ossim_tcp_client.Bytes.{read_at?}
use ossim_tcp_client.Protocol.{ConnectionState}
use ossim_tcp_client.Client.Os.{Os, SendLaws}
use ossim_tcp_client.Client.Monad.{Client, Sys, done, pure, ◌>>=◌, ◌>>◌, Returns, Returns-mono}
use ossim_tcp_client.Client.Base.{is_zero, set_error, add64, sub64}
use ossim_tcp_client.Client.Send.{send_rest, send_loop}

-- An error has been recorded, and the sockets are closed.
pub record Broken (c : Client) : Type 0 where
  pub failed : is_zero c.last_error ≡ false
  pub closed : c.connection.state ≡ ConnectionState.disconnected

pub set_error-Broken :
    {W : Type 0} (os : Os W) (s : Sys W) → Returns (set_error os s) (λ _ s'. Broken s'.client)
unfolding set_error
set_error-Broken os s = ground arith

module _ {W : Type 0} (log : W → ℕ → List ℕ) where
  -- Between `s` and `s'` exactly the bytes `bs` went out, on socket `sock`. Nothing else of the client
  -- changed but its measured time.
  pub record Delivered (s s' : Sys W) (sock : ℕ) (bs : List ℕ) : Type 0 where
    pub sent : log s'.world sock ≡ log s.world sock ++ bs
    pub others : (u : ℕ) → u ≢ sock → log s'.world u ≡ log s.world u
    pub connection : s'.client.connection ≡ s.client.connection
    pub connection_info : s'.client.connection_info ≡ s.client.connection_info
    pub last_error : s'.client.last_error ≡ s.client.last_error
    pub bytes_sent : s'.client.bytes_sent ≡ s.client.bytes_sent

  -- How the loop of `send` ends: with all `total` bytes, or with -1 and an error.
  abbrev pub LoopPost : Sys W → ℕ → List ℕ → ℕ → ℤ → Sys W → Type 0
  LoopPost s sock bs total (pos n) s' = (n ≡ total) × Delivered s s' sock bs
  LoopPost s sock bs total (negsuc e) s' = (e ≡ 0) × Broken s'.client

module _ {W : Type 0} (os : Os W) where
  -- The state after one `::send` of `bs` on `sock`
  abbrev after_send : ℕ → List ℕ → Sys W → Sys W
  after_send sock bs s =
      let w : W = (os.send sock bs s.world).1 in
      record {
        client = record s.client {
          sent_time = add64 s.client.sent_time (sub64 (os.clock w) (os.clock s.world));
        };
        world = w;
      }

  send_rest_lem :
      (idx sock : ℕ) (mem : List ℕ) (n : ℕ) (s : Sys W)
      → get_elem? s.client.connection.sockfd_send idx ≡ some sock
      → n ≤ length mem
      → send_rest os idx mem (length mem) n s
        ≡ done (os.send sock (drop n mem) s.world).0 (after_send sock (drop n mem) s)
  unfolding send_rest read_at?
  send_rest_lem idx sock mem n s e h = rw (
    e,
    le→leb (n + (length mem - n)) (length mem) (omega arith),
    take_all (length mem - n) (drop n mem) (omega (arith, length-drop n mem)),
  )

module _ {W : Type 0} (os : Os W) (log : W → ℕ → List ℕ) (laws : SendLaws os log) where
  pair_eq : (p : Option ℕ × W) (n : ℕ) → p.0 ≡ some n → p ≡ (some n, p.1)
  pair_eq p n e = rw (← e)

  -- The bytes of one `::send`, and those of the rounds behind it, are the bytes that were left.
  Delivered-cons :
      (sock : ℕ) (mem : List ℕ) (n m : ℕ) (s s' : Sys W)
      → (os.send sock (drop n mem) s.world).0 ≡ some m
      → Delivered log (after_send os sock (drop n mem) s) s' sock (drop (n + m) mem)
      → Delivered log s s' sock (drop n mem)
  Delivered-cons sock mem n m s s' e d = record {
    sent =
        d.sent
        ∙ rw (
          laws.send_log sock (drop n mem) s.world _ m (pair_eq _ m e),
          append_assoc,
          ← drop-drop n m (n + m) mem refl,
          take-append-drop,
        );
    others =
        λ u ne. d.others u ne ∙ laws.send_others sock u (drop n mem) s.world _ m (pair_eq _ m e) ne;
    connection = d.connection;
    connection_info = d.connection_info;
    last_error = d.last_error;
    bytes_sent = d.bytes_sent;
  }

  LoopPost-cons :
      (sock : ℕ) (mem : List ℕ) (n m : ℕ) (s : Sys W)
      → (os.send sock (drop n mem) s.world).0 ≡ some m
      → (r : ℤ) (s' : Sys W)
      → LoopPost log (after_send os sock (drop n mem) s) sock (drop (n + m) mem) (length mem) r s'
      → LoopPost log s sock (drop n mem) (length mem) r s'
  LoopPost-cons sock mem n m s e (pos k) s' h = (h.0, Delivered-cons sock mem n m s s' e h.1)
  LoopPost-cons sock mem n m s e (negsuc k) s' h = h

  failed-LoopPost :
      (sock : ℕ) (bs : List ℕ) (total : ℕ) (s s' : Sys W)
      → Returns ((set_error os >> pure (negsuc 0)) s') (LoopPost log s sock bs total)
  unfolding set_error
  failed-LoopPost sock bs total s s' = (refl, ground arith)

  -- The loop hands over what is left of the buffer or ends with an error; fuel for one round a byte is
  -- enough.
  pub send_loop-stream :
      (fuel idx sock : ℕ) (mem : List ℕ) (n : ℕ) (s : Sys W)
      → get_elem? s.client.connection.sockfd_send idx ≡ some sock
      → n ≤ length mem
      → length mem - n < fuel
      → Returns
          (send_loop os fuel idx mem (length mem) n s)
          (LoopPost log s sock (drop n mem) (length mem))
  unfolding send_loop
  send_loop-stream zero idx sock mem n s e h f = absurd (omega arith)
  send_loop-stream (suc fuel) idx sock mem n s e h f = elim (Bool-cases (ltb n (length mem))) [
    | inr all ↦
        rw (all, send_loop, drop_all n mem (ground arith))
          (
            ground arith,
            record {
              sent = sym (append-nil _);
              others = λ u ne. refl;
              connection = refl;
              connection_info = refl;
              last_error = refl;
              bytes_sent = refl;
            },
          )
    | inl more ↦
        rw (more, send_loop, send_rest_lem os idx sock mem n s e h, ◌>>=◌)
          (elim (Option-cases (os.send sock (drop n mem) s.world).0) [
            | inl failed ↦ rw failed (failed-LoopPost sock (drop n mem) (length mem) s _)
            | inr (m, r) ↦
                let (lo, hi) =
                  laws.send_progress sock (drop n mem) s.world _ m (pair_eq _ m r)
                    (ground (arith, length-drop n mem)) in
                rw r (
                  Returns-mono _ _ _
                    (send_loop-stream fuel idx sock mem (n + m) (after_send os sock (drop n mem) s)
                      e (ground (arith, length-drop n mem)) (ground (arith, length-drop n mem)))
                    (LoopPost-cons sock mem n m s r))
          ])
  ]
