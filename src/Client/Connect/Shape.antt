-- ===== src/Client/Connect/Shape.antt =====
-- The vectors of sockets of a `TCPClient` (src/tcpclient.cpp, `configSocket`) at the sizes for a number
-- of sockets and a duplex mode.
use ossim_tcp_client.Prelude.{
  ℕ, zero, suc, ◌+◌, ◌-◌, ◌/◌, ◌<◌, ◌≡◌, ◌∙◌, List, [], ◌∷◌, Option, none, some, Bool, true, false,
  ltb, if◌then◌else◌, length, take, replicate, arith, inl, inr, Bool-cases, length-append,
  length-replicate, length-set,
}
use ossim_tcp_client.Protocol.{Connection}
use ossim_tcp_client.Client.Connect.{resize, resize_sockets, assign?, place_socket}

-- The number of sockets of each direction
abbrev pub half_of : ℕ → Bool → ℕ
half_of n duplex = if duplex then n else n / 2

pub record Sizes (n : ℕ) (duplex : Bool) (c : Connection) : Type 0 where
  pub all : length c.sockfd ≡ n
  pub out : length c.sockfd_send ≡ half_of n duplex
  pub inp : length c.sockfd_rcv ≡ half_of n duplex

length-take-to : (n : ℕ) (xs : List ℕ) → length (take n xs) + (n - length xs) ≡ n
length-take-to zero xs = omega arith
length-take-to (suc n) [] = omega arith
length-take-to (suc n) (x ∷ xs) = omega (arith, length-take-to n xs)

length-resize : (xs : List ℕ) (n : ℕ) → length (resize xs n) ≡ n
unfolding resize
length-resize xs n = omega (
  arith,
  length-append (take n xs) (replicate (n - length xs) 0),
  length-replicate {A = ℕ} (n - length xs) 0,
  length-take-to n xs,
)

pub resize_sockets-Sizes :
    (n : ℕ) (duplex : Bool) (c : Connection) → Sizes n duplex (resize_sockets n duplex c)
unfolding resize_sockets
resize_sockets-Sizes n duplex c = record {
  all = length-resize c.sockfd n;
  out = length-resize c.sockfd_send (half_of n duplex);
  inp = length-resize c.sockfd_rcv (half_of n duplex);
}

-- The result of an access to a vector, where it is in bounds
abbrev pub Gives : {A : Type 0} → Option A → (A → Type 0) → Type 0
Gives none P = Unit {0}
Gives (some a) P = P a

Gives-elim :
    {A B : Type 0} (o : Option A) (f : A → Option B) (P : A → Type 0) (Q : B → Type 0)
    → Gives o P
    → ((a : A) → P a → Gives (f a) Q)
    → Gives (elim o [ none ↦ none | some a ↦ f a ]) Q
Gives-elim none f P Q h k = tt
Gives-elim (some a) f P Q h k = k a h

length-assign? :
    (xs : List ℕ) (i y : ℕ)
    → Gives (assign? xs i y) (λ ys. (length ys ≡ length xs) × (i < length xs))
unfolding assign?
length-assign? xs i y = elim (Bool-cases (ltb i (length xs))) [
  | inl lt ↦ rw lt (length-set xs i y, ground arith)
  | inr ge ↦ rw ge tt
]

pub place_socket-Sizes :
    (n : ℕ) (duplex : Bool) (id sock : ℕ) (c : Connection)
    → Sizes n duplex c
    → Gives (place_socket n duplex id sock c) (λ c'. Sizes n duplex c' × (0 < half_of n duplex))
unfolding place_socket
place_socket-Sizes n true id sock c h =
    Gives-elim (assign? c.sockfd id sock) _ _ _ (length-assign? c.sockfd id sock) (λ all p.
      Gives-elim (assign? c.sockfd_send id sock) _ _ _ (length-assign? c.sockfd_send id sock)
        (λ out q.
          Gives-elim (assign? c.sockfd_rcv id sock) _ _ _ (length-assign? c.sockfd_rcv id sock)
            (λ inp r. (
              record { all = p.0 ∙ h.all; out = q.0 ∙ h.out; inp = r.0 ∙ h.inp },
              omega (arith, q.1, h.out),
            ))))
place_socket-Sizes n false id sock c h =
    Gives-elim (assign? c.sockfd id sock) _ _ _ (length-assign? c.sockfd id sock) (λ all p.
      elim (Bool-cases (ltb id (n / 2))) [
        | inl lt ↦ rw lt (
            Gives-elim (assign? c.sockfd_send id sock) _ _ _ (length-assign? c.sockfd_send id sock)
              (λ out q. (
                record { all = p.0 ∙ h.all; out = q.0 ∙ h.out; inp = h.inp },
                omega (arith, q.1, h.out),
              )))
        | inr ge ↦ rw ge (
            Gives-elim (assign? c.sockfd_rcv (id - n / 2) sock) _ _ _
              (length-assign? c.sockfd_rcv (id - n / 2) sock)
              (λ inp r. (
                record { all = p.0 ∙ h.all; out = h.out; inp = r.0 ∙ h.inp },
                omega (arith, r.1, h.inp),
              )))
      ])
