-- ===== src/Client/Monad.antt =====
-- The fields of `TCPClient`, the system around it, and a method as a step on both. A method ends
-- with a value, or it uses up its fuel (`stuck`), or it reaches memory outside of a vector or a
-- buffer (`fault`).
use ossim_tcp_client.Prelude.{ℕ, Option, none, some, ℤ, pos}
use ossim_tcp_client.Protocol.{Connection, ConnectionInfo, new_connection, new_connection_info}

pub record Client : Type 0 where
  pub connection : Connection
  pub connection_info : ConnectionInfo
  pub bytes_sent : ℕ
  pub bytes_received : ℕ
  pub sent_time : ℕ
  pub received_time : ℕ
  pub last_error : ℤ

-- `TCPClient::TCPClient`
abbrev pub new_client : Client
new_client = record {
  connection = new_connection;
  connection_info = new_connection_info;
  bytes_sent = 0;
  bytes_received = 0;
  sent_time = 0;
  received_time = 0;
  last_error = pos 0;
}

pub record Sys (W : Type 0) : Type 0 where
  pub client : Client
  pub world : W

pub data Run (W A : Type 0) : Type 0 where
  done : A → Sys W → Run W A
  stuck : Run W A
  fault : Run W A

abbrev pub M : Type 0 → Type 0 → Type 0
M W A = Sys W → Run W A

module _ {W : Type 0} where
  abbrev pub pure : {A : Type 0} → A → M W A
  pure a s = done a s

  infixl 5 ◌>>=◌ ◌>>◌
  abbrev pub ◌>>=◌ : {A B : Type 0} → M W A → (A → M W B) → M W B
  ◌>>=◌ m f s = elim (m s) [ done a s' ↦ f a s' | stuck ↦ stuck | fault ↦ fault ]

  abbrev pub ◌>>◌ : {B : Type 0} → M W (Unit {0}) → M W B → M W B
  m >> k = m >>= λ _. k

  -- An access that is out of bounds where it gives `none`.
  abbrev pub in_bounds : {A : Type 0} → Option A → M W A
  in_bounds none s = fault
  in_bounds (some a) s = done a s

  abbrev pub gets : {A : Type 0} → (Client → A) → M W A
  gets f s = done (f s.client) s

  abbrev pub modify : (Client → Client) → M W (Unit {0})
  modify f s = done tt (record s { client = f s.client })

  -- A call of the system that only changes it.
  abbrev pub effect : (W → W) → M W (Unit {0})
  effect f s = done tt (record s { world = f s.world })

  -- A call of the system with a result.
  abbrev pub call : {A : Type 0} → (W → A × W) → M W A
  call f s = let (a, w) = f s.world in done a (record s { world = w })

  -- The run ends with a value, and `P` holds of it and of the state in which it ends.
  abbrev pub Returns : {A : Type 0} → Run W A → (A → Sys W → Type 0) → Type 0
  Returns (done a s) P = P a s
  Returns stuck P = ⊥
  Returns fault P = ⊥

  pub Returns-bind :
      {A B : Type 0} (m : M W A) (f : A → M W B) (s : Sys W) (P : A → Sys W → Type 0)
      (Q : B → Sys W → Type 0)
      → Returns (m s) P
      → ((a : A) (s' : Sys W) → P a s' → Returns (f a s') Q)
      → Returns ((m >>= f) s) Q
  Returns-bind m f s P Q h k = go (m s) h
    where
      go :
          (r : Run W _)
          → Returns r P
          → Returns (elim r [ done a s' ↦ f a s' | stuck ↦ stuck | fault ↦ fault ]) Q
      go (done a s') p = k a s' p
      go stuck p = elim p [ ]
      go fault p = elim p [ ]

  pub Returns-mono :
      {A : Type 0} (r : Run W A) (P Q : A → Sys W → Type 0)
      → Returns r P
      → ((a : A) (s : Sys W) → P a s → Q a s)
      → Returns r Q
  Returns-mono (done a s) P Q h k = k a s h
  Returns-mono stuck P Q h k = h
  Returns-mono fault P Q h k = h

  -- The run does not go on for ever: it ends with a value of which `P` holds, or at a `fault`.
  abbrev pub Ends : {A : Type 0} → Run W A → (A → Sys W → Type 0) → Type 0
  Ends (done a s) P = P a s
  Ends stuck P = ⊥
  Ends fault P = Unit {0}

  pub Ends-bind :
      {A B : Type 0} (m : M W A) (f : A → M W B) (s : Sys W) (P : A → Sys W → Type 0)
      (Q : B → Sys W → Type 0)
      → Ends (m s) P
      → ((a : A) (s' : Sys W) → P a s' → Ends (f a s') Q)
      → Ends ((m >>= f) s) Q
  Ends-bind m f s P Q h k = go (m s) h
    where
      go :
          (r : Run W _)
          → Ends r P
          → Ends (elim r [ done a s' ↦ f a s' | stuck ↦ stuck | fault ↦ fault ]) Q
      go (done a s') p = k a s' p
      go stuck p = elim p [ ]
      go fault p = tt

  pub Returns-Ends : {A : Type 0} (r : Run W A) (P : A → Sys W → Type 0) → Returns r P → Ends r P
  Returns-Ends (done a s) P h = h
  Returns-Ends stuck P h = h
  Returns-Ends fault P h = elim h [ ]
