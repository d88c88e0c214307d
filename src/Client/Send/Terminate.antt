-- ===== src/Client/Send/Terminate.antt =====
-- `send_terminate` (src/tcpclient.cpp) sends its block to every socket, in turn.
use ossim_tcp_client.Prelude.{
  ℕ, suc, ◌+◌, ◌<◌, ◌≡◌, sym, ◌∙◌, ap, List, [], ◌∷◌, ◌++◌, some, false, ℤ, pos, negsuc, ◌+ℤ◌,
  length, get_elem?, replicate, arith, append_assoc, inl, inr, ◌⊎◌, get_elem?-lt, length-append,
}
use ossim_tcp_client.Frames.{dealt, dealt-append, turn_after, turn_after-append, joined}
use ossim_tcp_client.Client.Os.{Os, SendLaws}
use ossim_tcp_client.Client.Monad.{Sys, Returns, Returns-bind, Returns-mono}
use ossim_tcp_client.Client.Send.{send, send_each, send_terminate, terminate_block}
use ossim_tcp_client.Client.Errors.{send-refused}
use ossim_tcp_client.Client.Send.Stream.{Broken}
use ossim_tcp_client.Client.Send.Method.{CanSend, Sent, SendPost, send-SendPost}
use ossim_tcp_client.Client.Send.Blocks.{Dealt, Dealt-nil, Dealt-cons, Sent-CanSend}

module _ {W : Type 0} (log : W → ℕ → List ℕ) where
  pub Dealt-append :
      (s s' s'' : Sys W) (fs gs : List (List ℕ))
      → Dealt log s s' fs
      → Dealt log s' s'' gs
      → Dealt log s s'' (fs ++ gs)
  Dealt-append s s' s'' fs gs d e =
      let socks = s.client.connection.sockfd_send in
      let i = s.client.connection.i_socket_send in
      record {
        logs = λ u.
            e.logs u
            ∙ rw (d.sockets, d.turn, d.logs u, dealt-append socks i fs gs u)
                (append_assoc (log s.world u) (dealt socks i fs u)
                  (dealt socks (turn_after fs i (length socks)) gs u));
        can_send = e.can_send;
        sockets = e.sockets ∙ d.sockets;
        turn = e.turn ∙ rw (d.sockets, d.turn) (sym (turn_after-append fs gs i (length socks)));
        connection_info = e.connection_info ∙ d.connection_info;
      }

  -- How a loop over `count` sockets ends: with a broken client, or with `mem` sent `count` times.
  abbrev pub EachPost : Sys W → List ℕ → ℕ → ℕ → ℤ → Sys W → Type 0
  EachPost s mem count sum r s' =
      Broken s'.client
      ⊎ ((r ≡ pos (sum + length (joined (replicate count mem))))
          × Dealt log s s' (replicate count mem))

pos_add : (a b : ℕ) → pos a +ℤ pos b ≡ pos (a + b)
unfolding ◌+ℤ◌
pos_add a b = ground arith

module _ {W : Type 0} (os : Os W) (log : W → ℕ → List ℕ) (laws : SendLaws os log) where
  send_each-Broken :
      (fuel : ℕ) (mem socks : List ℕ) (sum : ℤ) (s : Sys W)
      → Broken s.client
      → Returns (send_each os fuel mem socks sum s) (λ r s'. Broken s'.client)
  unfolding send_each
  send_each-Broken fuel mem [] sum s b = b
  send_each-Broken fuel mem (sock ∷ socks) sum s b =
      Returns-bind (send os fuel (some mem) (length mem)) _ s (λ r s'. Broken s'.client) _
        (rw (send-refused os fuel (length mem) mem s b.failed, Returns) b)
        (λ r s' b'. send_each-Broken fuel mem socks (sum +ℤ r) s' b')

  EachPost-cons :
      (s s' : Sys W) (sock sum count : ℕ) (mem : List ℕ)
      → get_elem? s.client.connection.sockfd_send s.client.connection.i_socket_send ≡ some sock
      → Sent log s s' sock mem
      → (r : ℤ) (s'' : Sys W) → EachPost log s' mem count (sum + length mem) r s''
      → EachPost log s mem (suc count) sum r s''
  EachPost-cons s s' sock sum count mem g d r s'' (inl broken) = inl broken
  EachPost-cons s s' sock sum count mem g d r s'' (inr (e, dealt_out)) = inr (
    e ∙ ap pos (omega (arith, length-append mem (joined (replicate count mem)))),
    Dealt-cons log s s' s'' sock mem (replicate count mem) g d dealt_out,
  )

  after_send :
      (fuel : ℕ) (mem socks : List ℕ) (sum : ℕ) (s : Sys W) (sock : ℕ)
      → CanSend s.client
      → get_elem? s.client.connection.sockfd_send s.client.connection.i_socket_send ≡ some sock
      → ((s' : Sys W)
          → CanSend s'.client
          → Returns
              (send_each os fuel mem socks (pos (sum + length mem)) s')
              (EachPost log s' mem (length socks) (sum + length mem)))
      → (r : ℤ) (s' : Sys W) → SendPost log s sock mem r s'
      → Returns
          (send_each os fuel mem socks (pos sum +ℤ r) s')
          (EachPost log s mem (suc (length socks)) sum)
  after_send fuel mem socks sum s sock can g ih (negsuc k) s' p =
      Returns-mono _ _ _ (send_each-Broken fuel mem socks (pos sum +ℤ negsuc k) s' p.1)
        (λ r s'' b. inl b)
  after_send fuel mem socks sum s sock can g ih (pos n) s' (e, d) =
      rw (pos_add sum n, e)
        (Returns-mono _ _ _ (ih s' (Sent-CanSend log s s' sock mem can d))
          (EachPost-cons s s' sock sum (length socks) mem g d))

  send_each-Dealt :
      (fuel : ℕ) (mem socks : List ℕ) (sum : ℕ) (s : Sys W)
      → CanSend s.client
      → length mem < fuel
      → Returns (send_each os fuel mem socks (pos sum) s) (EachPost log s mem (length socks) sum)
  unfolding send_each
  send_each-Dealt fuel mem [] sum s can f = inr (ap pos (omega arith), Dealt-nil log s can)
  send_each-Dealt fuel mem (x ∷ socks) sum s can f =
      let (sock, g) =
        get_elem?-lt s.client.connection.sockfd_send s.client.connection.i_socket_send
          can.in_range in
      Returns-bind (send os fuel (some mem) (length mem)) _ s (SendPost log s sock mem) _
        (send-SendPost os log laws fuel sock mem s can g f)
        (after_send fuel mem socks sum s sock can g
          (λ s' can'. send_each-Dealt fuel mem socks (sum + length mem) s' can' f))

  -- Where the client does not ask for the exit, `send_terminate` ends: the client is broken, or its
  -- block went out once for every socket, in turn, and the result counts the bytes.
  pub send_terminate-Dealt :
      (fuel : ℕ) (block : List ℕ) (s : Sys W)
      → CanSend s.client
      → s.client.connection_info.exit ≡ false
      → terminate_block s.client.connection_info.tcp_buf_size ≡ some block
      → length block < fuel
      → Returns
          (send_terminate os fuel s)
          (EachPost log s block (length s.client.connection.sockfd_send) 0)
  unfolding send_terminate
  send_terminate-Dealt fuel block s can e t f =
      simp (e, t) (send_each-Dealt fuel block s.client.connection.sockfd_send 0 s can f)
