-- ===== src/Client/Receive/Next.antt =====
-- `TCPClient::receive` on a stream that was dealt out in turn: the next frame comes in whole, and the
-- frames behind it are dealt out from the next socket on.
use ossim_tcp_client.Prelude.{
  ℕ, ◌<◌, ◌≡◌, ◌∙◌, ap, inl, inr, List, [], ◌++◌, some, Bool, ℤ, pos, negsuc, ◌==◌, if◌then◌else◌,
  length, get_elem?, arith, append-nil, Bool-cases, eq_refl, drop_all,
}
use ossim_tcp_client.Frames.{share}
use ossim_tcp_client.Client.Os.{Os, RecvLaws}
use ossim_tcp_client.Client.Monad.{Sys, Returns, Returns-mono}
use ossim_tcp_client.Client.Send.Stream.{Broken}
use ossim_tcp_client.Client.Send.Blocks.{next_socket-lt}
use ossim_tcp_client.Client.Receive.{receive}
use ossim_tcp_client.Client.Receive.Method.{
  CanReceive, rcv_turned, Received, ReceivePost, receive-ReceivePost,
}

Received-CanReceive :
    {W : Type 0} (inbox : W → ℕ → List ℕ) (s s' : Sys W) (sock : ℕ) (bs rest : List ℕ)
    → CanReceive s.client
    → Received inbox s s' sock bs rest
    → CanReceive s'.client
Received-CanReceive inbox s s' sock bs rest can d = record {
  no_error = rw d.last_error can.no_error;
  in_range = rw d.connection (next_socket-lt _ _ can.in_range can.few);
  few = rw d.connection can.few;
}

module _ {W : Type 0} (inbox : W → ℕ → List ℕ) where
  -- After a frame came in, `more` is still to come and the turn is the next socket's.
  pub record Next (s s' : Sys W) (more : ℕ → List ℕ) : Type 0 where
    pub inboxes : (u : ℕ) → inbox s'.world u ≡ more u
    pub connection : s'.client.connection ≡ rcv_turned s.client.connection
    pub connection_info : s'.client.connection_info ≡ s.client.connection_info
    pub can_receive : CanReceive s'.client

  abbrev pub NextPost : Sys W → List ℕ → (ℕ → List ℕ) → ℤ × List ℕ → Sys W → Type 0
  NextPost s f more (pos n, buf) s' = (n ≡ length f) × (buf ≡ f) × Next s s' more
  NextPost s f more (negsuc e, buf) s' = (e ≡ 0) × Broken s'.client

  Received-Next :
      (s s' : Sys W) (sock : ℕ) (f : List ℕ) (more : ℕ → List ℕ)
      → CanReceive s.client
      → ((u : ℕ) → inbox s.world u ≡ share (some sock) f u ++ more u)
      → Received inbox s s' sock f (more sock)
      → Next s s' more
  Received-Next s s' sock f more can h d = record {
    inboxes = λ u. elim (Bool-cases (u == sock)) [
      | inl same ↦ let e : u ≡ sock = ground arith in rw e d.after
      | inr other ↦
          d.others u (ground arith)
          ∙ (h u ∙ ap (λ (b : Bool). (if b then f else []) ++ more u) other)
    ];
    connection = d.connection;
    connection_info = d.connection_info;
    can_receive = Received-CanReceive inbox s s' sock f (more sock) can d;
  }

  ReceivePost-Next :
      (s : Sys W) (sock : ℕ) (f mem : List ℕ) (more : ℕ → List ℕ)
      → CanReceive s.client
      → ((u : ℕ) → inbox s.world u ≡ share (some sock) f u ++ more u)
      → length mem ≡ length f
      → (r : ℤ × List ℕ) (s' : Sys W) → ReceivePost inbox s sock f (more sock) mem r s'
      → NextPost s f more r s'
  ReceivePost-Next s sock f mem more can h l (negsuc e, m) s' p = p
  ReceivePost-Next s sock f mem more can h l (pos n, m) s' (p, q, d) = (
    p,
    q ∙ rw (drop_all (length f) mem (omega arith)) (append-nil f),
    Received-Next s s' sock f more can h d,
  )

module _ {W : Type 0} (os : Os W) (inbox : W → ℕ → List ℕ) (laws : RecvLaws os inbox) where
  pub receive-NextPost :
      (fuel sock : ℕ) (mem f : List ℕ) (more : ℕ → List ℕ) (len : ℕ) (s : Sys W)
      → CanReceive s.client
      → get_elem? s.client.connection.sockfd_rcv s.client.connection.i_socket_rcv ≡ some sock
      → ((u : ℕ) → inbox s.world u ≡ share (some sock) f u ++ more u)
      → length f ≡ s.client.connection_info.tcp_buf_size
      → s.client.connection_info.tcp_buf_size ≡ len
      → length mem ≡ length f
      → length f < fuel
      → Returns (receive os fuel (some mem) len s) (NextPost inbox s f more)
  receive-NextPost fuel sock mem f more len s can e h l n m b =
      Returns-mono _ _ _
        (receive-ReceivePost os inbox laws fuel sock mem f (more sock) len s can e
          (h sock ∙ ap (λ (c : Bool). (if c then f else []) ++ more sock) (eq_refl sock)) l
          (omega arith) (omega arith) b)
        (ReceivePost-Next inbox s sock f mem more can h m)
