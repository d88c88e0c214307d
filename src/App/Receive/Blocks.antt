-- ===== src/App/Receive/Blocks.antt =====
-- What the loop of the receivers does on a stream of blocks that was dealt out in turn.
use ossim_tcp_client.Prelude.{
  ℕ, zero, suc, ◌+◌, ◌%◌, ◌^◌, ◌<◌, ◌≡◌, refl, sym, ◌∙◌, List, [], ◌∷◌, ◌++◌, Option, some, true,
  false, ℤ, pos, negsuc, length-append, length, arith, append_assoc, get_elem?-lt, inl, inr, ◌⊎◌,
}
use ossim_tcp_client.Protocol.{Connection}
use ossim_tcp_client.Client.Os.{Os, RecvLaws}
use ossim_tcp_client.Client.Monad.{Client, Sys, M, Returns, Returns-bind, Returns-mono, ◌>>=◌}
use ossim_tcp_client.Client.Send.Stream.{Broken}
use ossim_tcp_client.Frames.{dealt, joined}
use ossim_tcp_client.Client.Send.{next_socket}
use ossim_tcp_client.Client.Receive.{receive}
use ossim_tcp_client.Client.Receive.Method.{CanReceive}
use ossim_tcp_client.Client.Receive.Next.{NextPost, receive-NextPost}
use ossim_tcp_client.Client.Receive.Frames.{Incoming, first_share, Next-Incoming}
use ossim_tcp_client.App.Receive.{Reception, ends_stream, after_receive, receive_blocks}

-- Blocks of `n` bytes that do not end the stream, with all that `part` writes of them
pub data Parts (part : List ℕ → Option (List ℕ)) (n : ℕ) : List (List ℕ) → List ℕ → Type 0 where
  no_parts : Parts part n [] []
  part_of :
      {f bs : List ℕ} {fs : List (List ℕ)} {out : List ℕ}
      → length f ≡ n
      → ends_stream f ≡ some false
      → part f ≡ some bs
      → Parts part n fs out
      → Parts part n (f ∷ fs) (bs ++ out)

-- The last block, and what is written of it
pub record Ending (part : List ℕ → Option (List ℕ)) (n : ℕ) (f bs : List ℕ) : Type 0 where
  pub size : length f ≡ n
  pub ends : ends_stream f ≡ some true
  pub writes : part f ≡ some bs

module _ {W : Type 0} (inbox : W → ℕ → List ℕ) where
  -- How the loop ends: with a broken client, or with `file` written and `rest` still to come.
  abbrev pub BlocksPost : ℕ → ℕ → List ℕ → (ℕ → List ℕ) → Reception → Sys W → Type 0
  BlocksPost bytes blocks file rest got s' =
      Broken s'.client
      ⊎ ((got.rcv_bytes ≡ bytes)
          × (got.block_count ≡ blocks)
          × (got.file ≡ file)
          × ((u : ℕ) → inbox s'.world u ≡ rest u))

BlocksPost-cast :
    {W : Type 0} (inbox : W → ℕ → List ℕ) (a b c d : ℕ) (m m' : List ℕ) (rest : ℕ → List ℕ)
    (got : Reception) (s : Sys W)
    → a ≡ b
    → c ≡ d
    → m ≡ m'
    → BlocksPost inbox a c m rest got s
    → BlocksPost inbox b d m' rest got s
BlocksPost-cast inbox a b c d m m' rest got s e f g (inl broken) = inl broken
BlocksPost-cast inbox a b c d m m' rest got s e f g (inr (x, y, z, w)) =
    inr (x ∙ e, y ∙ f, z ∙ g, w)

module _ {W : Type 0} (os : Os W) (inbox : W → ℕ → List ℕ) (laws : RecvLaws os inbox) where
  -- What a run of the loop relies on: a client that can receive blocks of `n` bytes
  pub record CanReceiveBlocks (n : ℕ) (mem : List ℕ) (c : Client) : Type 0 where
    pub can : CanReceive c
    pub size : c.connection_info.tcp_buf_size ≡ n
    pub buffer : length mem ≡ n

  received :
      (n : ℕ) (f : List ℕ) (fs : List (List ℕ)) (rest : ℕ → List ℕ) (s : Sys W)
      (k : ℤ × List ℕ → M W Reception) (Q : Reception → Sys W → Type 0)
      → s.client.connection_info.tcp_buf_size ≡ n
      → length f ≡ n
      → ((e : ℕ) (m : List ℕ) (s' : Sys W) → Broken s'.client → Returns (k (negsuc e, m) s') Q)
      → ((s' : Sys W)
          → CanReceiveBlocks n f s'.client
          → Incoming inbox s' fs rest
          → Returns (k (pos n, f) s') Q)
      → (r : ℤ × List ℕ) (s' : Sys W)
      → NextPost inbox s f
          (λ u.
            dealt s.client.connection.sockfd_rcv
              (next_socket s.client.connection.i_socket_rcv (length s.client.connection.sockfd_rcv))
              fs
              u
            ++ rest u)
          r
          s'
      → Returns (k r s') Q
  received n f fs rest s k Q size l bad good (negsuc e, m) s' p = bad e m s' p.1
  received n f fs rest s k Q size l bad good (pos c, m) s' (p, q, d) =
      rw (q, p, l)
        (good s' (record { can = d.can_receive; size = rw d.connection_info size; buffer = l })
          (Next-Incoming inbox s s' fs rest d))

  -- One `receive` of the loop, with what the rest of the round does given
  receive_one :
      (fuel n : ℕ) (f mem : List ℕ) (fs : List (List ℕ)) (rest : ℕ → List ℕ) (s : Sys W)
      (k : ℤ × List ℕ → M W Reception) (Q : Reception → Sys W → Type 0)
      → CanReceiveBlocks n mem s.client
      → Incoming inbox s (f ∷ fs) rest
      → length f ≡ n
      → n < fuel
      → ((e : ℕ) (m : List ℕ) (s' : Sys W) → Broken s'.client → Returns (k (negsuc e, m) s') Q)
      → ((s' : Sys W)
          → CanReceiveBlocks n f s'.client
          → Incoming inbox s' fs rest
          → Returns (k (pos n, f) s') Q)
      → Returns ((receive os fuel (some mem) n >>= k) s) Q
  receive_one fuel n f mem fs rest s k Q c h l b bad good =
      let conn : Connection = s.client.connection in
      let (sock, e) = get_elem?-lt conn.sockfd_rcv conn.i_socket_rcv c.can.in_range in
      Returns-bind (receive os fuel (some mem) n) k s (NextPost inbox s f _) Q
        (receive-NextPost os inbox laws fuel sock mem f _ n s c.can e
          (first_share inbox s sock f fs rest e h) (l ∙ sym c.size) c.size (c.buffer ∙ sym l)
          (omega arith))
        (received n f fs rest s k Q c.size l bad good)

  -- The blocks of a stream are read up to the one that ends it, and everything that is to be written of
  -- them is.
  pub receive_blocks-Parts :
      (part : List ℕ → Option (List ℕ)) (fuel n : ℕ) (fs : List (List ℕ))
      (out block last mem : List ℕ) (rest : ℕ → List ℕ) (got : Reception) (s : Sys W)
      → CanReceiveBlocks n mem s.client
      → Incoming inbox s (fs ++ (block ∷ [])) rest
      → Parts part n fs out
      → Ending part n block last
      → n + length fs + 1 < fuel
      → got.block_count < 2 ^ 64
      → Returns (receive_blocks os fuel part n mem got s) (
          BlocksPost inbox
            ((got.rcv_bytes + (length (joined fs) + n)) % 2 ^ 64)
            ((got.block_count + length fs) % 2 ^ 64)
            (got.file ++ (out ++ last))
            rest)
  unfolding receive_blocks after_receive
  receive_blocks-Parts part zero n fs out block last mem rest got s c h ps en b hb =
      absurd (omega arith)
  receive_blocks-Parts part (suc fuel) n _ _ block last mem rest got s c h Parts.no_parts en b hb =
      receive_one fuel n block mem [] rest s _ _ c h en.size (omega arith)
        (λ e m s' broken. inl broken)
        (λ s' c' h'. rw (en.writes, en.ends) (inr (omega arith, omega arith, refl, h')))
  receive_blocks-Parts part (suc fuel) n _ _ block last mem rest got s c h
        (Parts.part_of {f = f} {bs = bs} {fs = fs} {out = out} l goes w ps) en b hb =
      let bytes : ((got.rcv_bytes + n) % 2 ^ 64 + (length (joined fs) + n)) % 2 ^ 64
          ≡ (got.rcv_bytes + (length (f ++ joined fs) + n)) % 2 ^ 64 =
        omega (arith, length-append f (joined fs)) in
      let blocks : ((got.block_count + 1) % 2 ^ 64 + length fs) % 2 ^ 64
          ≡ (got.block_count + suc (length fs)) % 2 ^ 64 =
        omega arith in
      let file : (got.file ++ bs) ++ (out ++ last) ≡ got.file ++ ((bs ++ out) ++ last) =
        rw (append_assoc got.file bs (out ++ last), append_assoc bs out last) refl in
      receive_one fuel n f mem (fs ++ (block ∷ [])) rest s _ _ c h l (omega arith)
        (λ e m s' broken. inl broken)
        (λ s' c' h'.
          rw (w, goes)
            (Returns-mono _ _ _
              (receive_blocks-Parts part fuel n fs out block last f rest
                (record {
                  rcv_bytes = (got.rcv_bytes + n) % 2 ^ 64;
                  block_count = (got.block_count + 1) % 2 ^ 64;
                  file = got.file ++ bs;
                })
                s' c' h' ps en (omega arith) (omega arith))
              (λ got' s''. BlocksPost-cast inbox _ _ _ _ _ _ rest got' s'' bytes blocks file)))
