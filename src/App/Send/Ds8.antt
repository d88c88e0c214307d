-- ===== src/App/Send/Ds8.antt =====
-- `sendDS8File` (src/tcpclientapp.cpp) puts out the blocks of its file as they are: for a file that
-- `file_bin_to_ds8` has made, frames of the data and the block that ends a stream.
use native.Mathlib.Nat.{mul-suc, mul-div_cancel_left}
use ossim_tcp_client.Prelude.{
  ℕ, ◌+◌, ◌-◌, ◌*◌, ◌/◌, ◌<◌, ◌≡◌, refl, sym, ◌∙◌, ap, subst, List, [], ◌∷◌, ◌++◌, some, ℤ, pos,
  negsuc, length, drop, arith, inl, inr, ◌⊎◌, get_elem?-lt, length-append, take-append, drop-append,
  get_elem?, append-nil, append_assoc,
}
use ossim_tcp_client.Frames.{FramesOf, length-frame, joined}
use ossim_tcp_client.Client.Os.{Os, SendLaws}
use ossim_tcp_client.Client.Monad.{Sys, M, Returns, Returns-bind, Returns-mono, pure}
use ossim_tcp_client.Client.Send.{send}
use ossim_tcp_client.Client.Send.Stream.{Broken}
use ossim_tcp_client.Client.Send.Method.{CanSend, Sent, SendPost, send-SendPost}
use ossim_tcp_client.Client.Send.Blocks.{Dealt, Dealt-nil, Dealt-cons, Sent-CanSend}
use ossim_tcp_client.Client.Send.TcpIo.{IsBlockSize}
use ossim_tcp_client.Client.Receive.Frames.{length-terminate_block}
use ossim_tcp_client.Convertors.Ds8.{write_header, header_size}
use ossim_tcp_client.Convertors.Ds8.Header.{length-write_header}
use ossim_tcp_client.Convertors.Ds8.Frames.{IsDs8}
use ossim_tcp_client.App.Send.{ds8_send_loop}
use ossim_tcp_client.App.Send.Data.{AllSent}

-- All blocks have `n` bytes.
data Blocks (n : ℕ) : List (List ℕ) → Type 0 where
  no_blocks : Blocks n []
  block_of : {f : List ℕ} {fs : List (List ℕ)} → length f ≡ n → Blocks n fs → Blocks n (f ∷ fs)

FramesOf-Blocks :
    (room : ℕ) (bs block : List ℕ) (fs : List (List ℕ))
    → length block ≡ room + 16
    → FramesOf room bs fs
    → Blocks (room + 16) (fs ++ (block ∷ []))
FramesOf-Blocks room bs block _ l (FramesOf.last tail e q) =
    Blocks.block_of (rw q (omega (arith, length-frame bs tail)))
      (Blocks.block_of l Blocks.no_blocks)
FramesOf-Blocks room bs block _ l (FramesOf.more {fs = fs} chunk rest e p q q' fr) =
    Blocks.block_of (rw q' (omega (arith, length-frame chunk [])))
      (FramesOf-Blocks room rest block fs l fr)

length-Blocks : (n : ℕ) (fs : List (List ℕ)) → Blocks n fs → length (joined fs) ≡ n * length fs
length-Blocks n _ Blocks.no_blocks = omega arith
length-Blocks n _ (Blocks.block_of {f = f} {fs = fs} l b) =
    rw (length-append f (joined fs), l, length-Blocks n fs b) (omega (arith, mul-suc n (length fs)))

joined-last :
    (fs : List (List ℕ)) (block : List ℕ) → joined (fs ++ (block ∷ [])) ≡ joined fs ++ block
joined-last [] block = append-nil block
joined-last (f ∷ fs) block = rw (joined-last fs block, append_assoc f (joined fs) block) refl

module _ {W : Type 0} (log : W → ℕ → List ℕ) where
  -- How the loop ends: with a broken client, or with its blocks dealt out.
  abbrev pub BlocksSent : Sys W → List (List ℕ) → Unit {0} → Sys W → Type 0
  BlocksSent s fs u s' = Broken s'.client ⊎ Dealt log s s' fs

  BlocksSent-cons :
      (s s' : Sys W) (sock : ℕ) (f : List ℕ) (fs : List (List ℕ))
      → get_elem? s.client.connection.sockfd_send s.client.connection.i_socket_send ≡ some sock
      → Sent log s s' sock f
      → (u : Unit {0}) (s'' : Sys W) → BlocksSent s' fs u s''
      → BlocksSent s (f ∷ fs) u s''
  BlocksSent-cons s s' sock f fs g d u s'' (inl broken) = inl broken
  BlocksSent-cons s s' sock f fs g d u s'' (inr e) = inr (Dealt-cons log s s' s'' sock f fs g d e)

  BlocksSent-AllSent :
      (n : ℕ) (bs block : List ℕ) (s : Sys W) (fs : List (List ℕ))
      → FramesOf (n - 16) bs fs
      → (u : Unit {0}) (s' : Sys W) → BlocksSent s (fs ++ (block ∷ [])) u s'
      → Broken s'.client ⊎ AllSent log (n - 16) bs block 1 s s'
  BlocksSent-AllSent n bs block s fs fr u s' (inl broken) = inl broken
  BlocksSent-AllSent n bs block s fs fr u s' (inr d) = inr (fs, fr, d)

module _ {W : Type 0} (os : Os W) (log : W → ℕ → List ℕ) (laws : SendLaws os log) where
  after_ds8_block :
      (fuel count n sock : ℕ) (left f : List ℕ) (fs : List (List ℕ)) (s : Sys W)
      → CanSend s.client
      → get_elem? s.client.connection.sockfd_send s.client.connection.i_socket_send ≡ some sock
      → ((s' : Sys W)
          → CanSend s'.client
          → Returns (ds8_send_loop os fuel count left n s') (BlocksSent log s' fs))
      → (r : ℤ) (s' : Sys W) → SendPost log s sock f r s'
      → let run : M W (Unit {0}) = elim r [
        | negsuc e ↦ pure tt
        | pos k ↦ ds8_send_loop os fuel count left n
      ] in
        Returns (run s') (BlocksSent log s (f ∷ fs))
  after_ds8_block fuel count n sock left f fs s can g ih (negsuc e) s' p = inl p.1
  after_ds8_block fuel count n sock left f fs s can g ih (pos k) s' p =
      Returns-mono _ _ _ (ih s' (Sent-CanSend log s s' sock f can p.1))
        (BlocksSent-cons log s s' sock f fs g p.1)

  ds8_send_loop-Blocks :
      (fuel n : ℕ) (fs : List (List ℕ)) (s : Sys W)
      → CanSend s.client
      → Blocks n fs
      → n < fuel
      → Returns (ds8_send_loop os fuel (length fs) (joined fs) n s) (BlocksSent log s fs)
  unfolding ds8_send_loop
  ds8_send_loop-Blocks fuel n _ s can Blocks.no_blocks h = inr (Dealt-nil log s can)
  ds8_send_loop-Blocks fuel n _ s can (Blocks.block_of {f = f} {fs = fs} l b) h =
      let (sock, g) =
        get_elem?-lt s.client.connection.sockfd_send s.client.connection.i_socket_send
          can.in_range in
      rw (ds8_send_loop, take-append n f (joined fs) l)
        (Returns-bind (send os fuel (some f) n) _ s (SendPost log s sock f) _
          (rw l at (send-SendPost os log laws fuel sock f s can g (omega arith)))
          (after_ds8_block fuel (length fs) n sock (drop n (f ++ joined fs)) f fs s can g
            (λ s' can'.
              subst
                (λ left.
                  Returns (ds8_send_loop os fuel (length fs) left n s') (BlocksSent log s' fs))
                (sym (drop-append n f (joined fs) l))
                (ds8_send_loop-Blocks fuel n fs s' can' b h))))

  -- The loop of `sendDS8File`, on a file that `file_bin_to_ds8` has made of data that is not empty, with
  -- a block size of whole words from 24 on and fuel above it, ends: the client is broken, or frames that
  -- carry exactly the data went out in turn, and behind them the block that ends a stream, once.
  pub ds8_send_loop-AllSent :
      (fuel n : ℕ) (bs out : List ℕ) (s : Sys W)
      → CanSend s.client
      → IsBlockSize n
      → 0 < length bs
      → n < fuel
      → (d : IsDs8 n bs out)
      → Returns
          (ds8_send_loop os fuel ((length out - header_size) / n) (drop header_size out) n s)
          (λ u s'. Broken s'.client ⊎ AllSent log (n - 16) bs d.ending 1 s s')
  ds8_send_loop-AllSent fuel n bs out s can size p f d = elim d.frames [
    | inl (none, _) ↦ absurd (omega (arith, ap length none))
    | inr (fs, fr, e) ↦
        let all : List (List ℕ) = fs ++ (d.ending ∷ []) in
        let whole : Blocks n all =
          subst (λ (k : ℕ). Blocks k all) (omega (arith, size.0))
            (FramesOf-Blocks (n - 16) bs d.ending fs
              (omega (arith, size.0, length-terminate_block n d.ending size d.ends)) fr) in
        let file : out ≡ write_header n ++ joined all =
          d.layout ∙ rw (e, joined-last fs d.ending) refl in
        let left : drop header_size out ≡ joined all =
          ap (drop header_size) file
          ∙ drop-append header_size (write_header n) (joined all) (length-write_header n) in
        let bytes : length out - header_size ≡ n * length all = omega (
          arith,
          ap length file,
          length-append (write_header n) (joined all),
          length-write_header n,
          length-Blocks n all whole,
        ) in
        let count : (length out - header_size) / n ≡ length all =
          rw bytes (mul-div_cancel_left (length all) (omega (arith, size.0))) in
        rw (count, left)
          (Returns-mono _ _ _ (ds8_send_loop-Blocks fuel n all s can whole f)
            (BlocksSent-AllSent log n bs d.ending s fs fr))
  ]
