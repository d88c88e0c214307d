-- ===== src/App/Linked.antt =====
-- A sender and a receiver on the two ends of the same sockets: the functions of src/tcpclientapp.cpp that
-- send a file, and those that receive one.
use ossim_tcp_client.Prelude.{
  ◌-◌, ℕ, suc, ◌+◌, ◌-◌, ◌<◌, ◌≤◌, ◌≡◌, refl, ◌∙◌, ap, subst, List, [], ◌∷◌, ◌++◌, true, length,
  replicate, arith, append_assoc, inl, inr, ◌⊎◌, length-append,
}
use ossim_tcp_client.Frames.{FramesOf, dealt, dealt-append, turn_after}
use ossim_tcp_client.Client.Monad.{Sys}
use ossim_tcp_client.Client.Base.{is_zero}
use ossim_tcp_client.Client.Send.Stream.{Broken}
use ossim_tcp_client.Client.Send.Blocks.{Dealt}
use ossim_tcp_client.Client.Receive.Frames.{Incoming}
use ossim_tcp_client.App.Send.Data.{AllSent, SentPost}
use ossim_tcp_client.App.Receive.Files.{FilePost}

-- No more frames than bytes, but for the one of no bytes
length-FramesOf :
    (room : ℕ) (bs : List ℕ) (fs : List (List ℕ))
    → 0 < room
    → FramesOf room bs fs
    → length fs ≤ length bs + 1
length-FramesOf room bs _ p (FramesOf.last tail e f) = omega arith
length-FramesOf room bs _ p (FramesOf.more {fs = fs} chunk rest e l q f frames) =
    let k = length-FramesOf room rest fs p frames in
    let whole : length bs ≡ length chunk + length rest = ap length e ∙ length-append chunk rest in
    omega arith

-- A sender `s'` that was in `s`, with nothing under way, and a receiver `r` on the other ends of the
-- sockets, which finds in them what `s'` has put out
pub record Linked {V W : Type 0} (log : W → ℕ → List ℕ) (inbox : V → ℕ → List ℕ) (s s' : Sys W)
    (r : Sys V) : Type 0 where
  pub quiet : (u : ℕ) → log s.world u ≡ []
  pub streams : (u : ℕ) → inbox r.world u ≡ log s'.world u
  pub sockets : r.client.connection.sockfd_rcv ≡ s.client.connection.sockfd_send
  pub turn : r.client.connection.i_socket_rcv ≡ s.client.connection.i_socket_send
  pub size : r.client.connection_info.tcp_buf_size ≡ s.client.connection_info.tcp_buf_size

module _ {V W : Type 0} (log : W → ℕ → List ℕ) (inbox : V → ℕ → List ℕ) where
  pub Linked-Incoming :
      (s s' : Sys W) (r : Sys V) (fs : List (List ℕ)) (block : List ℕ) (count : ℕ)
      → Linked log inbox s s' r
      → Dealt log s s' (fs ++ replicate (suc count) block)
      → (rest : ℕ → List ℕ) × Incoming inbox r (fs ++ (block ∷ [])) rest
  Linked-Incoming s s' r fs block count h d =
      let socks : List ℕ = s.client.connection.sockfd_send in
      let i : ℕ = s.client.connection.i_socket_send in
      (
        dealt socks (turn_after (fs ++ (block ∷ [])) i (length socks)) (replicate count block),
        λ u.
            h.streams u
            ∙ d.logs u
            ∙ rw
                (
                  h.quiet u,
                  h.sockets,
                  h.turn,
                  ← append_assoc fs (block ∷ []) (replicate count block),
                  dealt-append socks i (fs ++ (block ∷ [])) (replicate count block) u,
                )
                refl,
      )

  pub AllSent-Incoming :
      (room k : ℕ) (s s' : Sys W) (r : Sys V) (bs block : List ℕ)
      → 0 < k
      → 0 < room
      → AllSent log room bs block k s s'
      → Linked log inbox s s' r
      → (fs : List (List ℕ)) × FramesOf room bs fs
        × (length fs ≤ length bs + 1)
        × ((rest : ℕ → List ℕ) × Incoming inbox r (fs ++ (block ∷ [])) rest)
  AllSent-Incoming room k s s' r bs block q p (fs, fr, d) h =
      let one : k ≡ suc (k - 1) = omega arith in
      (
        fs,
        fr,
        length-FramesOf room bs fs p fr,
        Linked-Incoming s s' r fs block (k - 1) h
            (subst (λ (m : ℕ). Dealt log s s' (fs ++ replicate m block)) one d),
      )

  pub not_Broken : (s : Sys W) → is_zero s.client.last_error ≡ true → ¬ Broken s.client
  not_Broken s h b = ground (arith, h, b.failed)

  pub all_sent :
      (room : ℕ) (s s' : Sys W) (bs block : List ℕ)
      → is_zero s'.client.last_error ≡ true
      → SentPost log room s bs block true s'
      → AllSent log room bs block (length s.client.connection.sockfd_send) s s'
  all_sent room s s' bs block h (inl broken) = elim (not_Broken s' h broken) [ ]
  all_sent room s s' bs block h (inr (_, sent)) = sent

  -- The receiver has written `bs` to its file, or it has recorded an error.
  abbrev pub Written : List ℕ → ℕ × List ℕ → Sys V → Type 0
  Written bs r s = Broken s.client ⊎ (r.1 ≡ bs)

  pub FilePost-Written :
      (value : ℕ) (bs : List ℕ) (rest : ℕ → List ℕ) (r : ℕ × List ℕ) (s : Sys V)
      → FilePost inbox value bs rest r s
      → Written bs r s
  FilePost-Written value bs rest r s (inl broken) = inl broken
  FilePost-Written value bs rest r s (inr (_, e, _)) = inr e
