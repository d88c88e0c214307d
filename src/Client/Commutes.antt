-- ===== src/Client/Commutes.antt =====
-- Methods that neither read nor change some fields of the client: they commute with any change of these.
use ossim_tcp_client.Prelude.{
  ◌≡◌, refl, ◌∙◌, ap, Option, none, some, Bool, true, false, if◌then◌else◌,
}
use ossim_tcp_client.Client.Monad.{
  Client, Sys, Run, done, stuck, fault, M, pure, ◌>>=◌, in_bounds, gets, modify, call,
}

module _ {W : Type 0} (t : Client → Client) where
  -- The change, in the state in which a run ends
  abbrev pub moved : {A : Type 0} → Run W A → Run W A
  moved (done a s) = done a (record s { client = t s.client })
  moved stuck = stuck
  moved fault = fault

  -- From a state with the change, the run is the same one, and ends in the state with the change.
  pub record Commutes {A : Type 0} (m : M W A) : Type 0 where
    pub runs : (s : Sys W) → m (record s { client = t s.client }) ≡ moved (m s)

module _ {W : Type 0} {t : Client → Client} where
  bind_moved :
      {A B : Type 0} (f : A → M W B)
      → ((a : A) → Commutes {W = W} t (f a))
      → (r : Run W A)
      → elim (moved t r) [ done a s' ↦ f a s' | stuck ↦ stuck | fault ↦ fault ]
        ≡ moved t (elim r [ done a s' ↦ f a s' | stuck ↦ stuck | fault ↦ fault ])
  bind_moved f k (done a s') = (k a).runs s'
  bind_moved f k stuck = refl
  bind_moved f k fault = refl

  pub Commutes-bind :
      {A B : Type 0} {m : M W A} {f : A → M W B}
      → Commutes {W = W} t m
      → ((a : A) → Commutes {W = W} t (f a))
      → Commutes {W = W} t (m >>= f)
  Commutes-bind {m = m} {f = f} h k = record {
    runs = λ s.
        ap (λ r. elim r [ done a s' ↦ f a s' | stuck ↦ stuck | fault ↦ fault ]) (h.runs s)
        ∙ bind_moved f k (m s);
  }

  pub Commutes-pure : {A : Type 0} (a : A) → Commutes {W = W} t (pure a)
  Commutes-pure a = record { runs = λ s. refl }

  pub Commutes-gets :
      {A : Type 0} (f : Client → A) → ((c : Client) → f (t c) ≡ f c) → Commutes {W = W} t (gets f)
  Commutes-gets f h = record {
    runs = λ s. ap (λ a. done a (record s { client = t s.client })) (h s.client);
  }

  pub Commutes-in_bounds : {A : Type 0} (o : Option A) → Commutes {W = W} t (in_bounds o)
  Commutes-in_bounds none = record { runs = λ s. refl }
  Commutes-in_bounds (some a) = record { runs = λ s. refl }

  pub Commutes-if :
      {A : Type 0} (b : Bool) {m n : M W A}
      → Commutes {W = W} t m
      → Commutes {W = W} t n
      → Commutes {W = W} t (if b then m else n)
  Commutes-if true h k = h
  Commutes-if false h k = k

  pub Commutes-elim :
      {A : Type 0} (b : Bool) {m n : M W A}
      → Commutes {W = W} t m
      → Commutes {W = W} t n
      → Commutes {W = W} t (elim b [ true ↦ m | false ↦ n ])
  Commutes-elim true h k = h
  Commutes-elim false h k = k

  pub Commutes-call : {A : Type 0} (f : W → A × W) → Commutes {W = W} t (call f)
  Commutes-call f = record { runs = λ s. refl }

  pub Commutes-modify :
      (f : Client → Client) → ((c : Client) → f (t c) ≡ t (f c)) → Commutes {W = W} t (modify f)
  Commutes-modify f h = record {
    runs = λ s. ap (λ c. done tt (record s { client = c })) (h s.client);
  }
