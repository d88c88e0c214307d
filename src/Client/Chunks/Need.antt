-- ===== src/Client/Chunks/Need.antt =====
-- `TCPClient::send_need` of a whole buffer, on a client with one socket.
use ossim_tcp_client.Prelude.{
  ℕ, zero, suc, ◌+◌, ◌-◌, ◌<◌, ◌≡◌, refl, List, [], ◌∷◌, ◌++◌, some, true, false, ℤ, pos, negsuc,
  ◌==◌, length, arith,
}
use ossim_tcp_client.Client.Os.{Os, SendLaws}
use ossim_tcp_client.Client.Monad.{Client, Sys, M, Returns, Returns-bind, pure}
use ossim_tcp_client.Client.Send.{send, send_need, send_need_loop}
use ossim_tcp_client.Client.Send.Stream.{Broken}
use ossim_tcp_client.Client.Send.Method.{CanSend, Sent, SendPost, send-SendPost}
use ossim_tcp_client.Client.Send.Blocks.{Sent-CanSend}

-- A client that can send, on one socket
pub record OneSocket (sock : ℕ) (c : Client) : Type 0 where
  pub can : CanSend c
  pub socks : c.connection.sockfd_send ≡ sock ∷ []
  pub turn : c.connection.i_socket_send ≡ 0

module _ {W : Type 0} (log : W → ℕ → List ℕ) (sock : ℕ) where
  -- How `send_need` ends: with the length, all bytes on the stream, or with -1 and a broken client.
  abbrev pub NeedPost : Sys W → List ℕ → ℤ → Sys W → Type 0
  NeedPost s bs (pos n) s' =
      (n ≡ length bs) × OneSocket sock s'.client × (log s'.world sock ≡ log s.world sock ++ bs)
  NeedPost s bs (negsuc e) s' = (e ≡ 0) × Broken s'.client

module _ {W : Type 0} (os : Os W) (log : W → ℕ → List ℕ) (laws : SendLaws os log) (sock : ℕ) where
  Sent-OneSocket :
      (s s' : Sys W) (bs : List ℕ)
      → OneSocket sock s.client
      → Sent log s s' sock bs
      → OneSocket sock s'.client
  Sent-OneSocket s s' bs one d = record {
    can = Sent-CanSend log s s' sock bs one.can d;
    socks = rw d.connection one.socks;
    turn = rw (d.connection, one.socks, one.turn) refl;
  }

  after_need :
      (fuel : ℕ) (mem bs : List ℕ) (s : Sys W)
      → OneSocket sock s.client
      → (r : ℤ) (s' : Sys W) → SendPost log s sock bs r s'
      → let next : ℤ → M W ℤ = λ r. elim r [
        | negsuc e ↦ pure (negsuc e)
        | pos n ↦ elim (length bs - n == 0) [
          | true ↦ pure (pos (length bs))
          | false ↦ send_need_loop os fuel mem (length bs) (length bs - n)
        ]
      ] in
        Returns (next r s') (NeedPost log sock s bs)
  after_need fuel mem bs s one (negsuc e) s' p = p
  after_need fuel mem bs s one (pos n) s' (e, d) =
      let z : (length bs - n == 0) ≡ true = ground arith in
      rw z (refl, Sent-OneSocket s s' bs one d, d.sent)

  -- `send_need` of a whole buffer
  pub send_need-NeedPost :
      (fuel : ℕ) (bs : List ℕ) (s : Sys W)
      → OneSocket sock s.client
      → length bs + 1 < fuel
      → Returns (send_need os fuel (some bs) (length bs) s) (NeedPost log sock s bs)
  unfolding send_need send_need_loop
  send_need-NeedPost zero bs s one h = absurd (omega arith)
  send_need-NeedPost (suc fuel) bs s one h =
      let z : length bs - length bs ≡ 0 = omega arith in
      rw (z) (
        Returns-bind (send os fuel (some bs) (length bs)) _ s (SendPost log s sock bs) _
          (send-SendPost os log laws fuel sock bs s one.can (rw (one.socks, one.turn) refl)
            (omega arith))
          (after_need fuel bs bs s one))
