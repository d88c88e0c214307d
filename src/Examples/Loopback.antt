-- ===== src/Examples/Loopback.antt =====
-- A system whose sockets hand back what they took: its state is the bytes that wait on each socket.
-- Every call succeeds, and takes or delivers all that it is asked for.
use ossim_tcp_client.Prelude.{
  ℕ, zero, suc, ◌<◌, ◌≡◌, refl, sym, ◌∙◌, ap, ◌≢◌, List, [], ◌∷◌, ◌++◌, Option, none, some, true,
  false, ◌==◌, if◌then◌else◌, length, take, drop, arith, take-append-drop, take_all, length-take-le,
  eq_refl,
}
use mathlib.Core.Option.{some-injective}
use ossim_tcp_client.Client.Os.{Os, SendLaws, RecvLaws}

abbrev pub Streams : Type 0
Streams = ℕ → List ℕ

abbrev pub loop_os : Os Streams
loop_os = record {
  socket = λ w. (7, w);
  connect = λ sock addr w. (true, w);
  close = λ sock w. w;
  send = λ t bs w. (some (length bs), λ u. if u == t then w u ++ bs else w u);
  recv = λ t n w. (some (take n (w t)), λ u. if u == t then drop n (w u) else w u);
  errno = λ w. 0;
  sleep_ms = λ ms w. w;
  clock = λ w. 0;
  getsockopt = λ sock o w. none;
  setsockopt = λ sock o v w. w;
  set_time_out = λ sock r v w. w;
  getaddrinfo = λ host w. none;
  inet_addr = λ host. 0;
}

abbrev pub stream : Streams → ℕ → List ℕ
stream w t = w t

sent_all :
    (t : ℕ) (bs : List ℕ) (w w' : Streams) (n : ℕ)
    → loop_os.send t bs w ≡ (some n, w')
    → n ≡ length bs
sent_all t bs w w' n e = sym (some-injective _ _ (ap (λ (p : Option ℕ × Streams). p.0) e))

sent_to :
    (t u : ℕ) (bs : List ℕ) (w w' : Streams) (n : ℕ)
    → loop_os.send t bs w ≡ (some n, w')
    → (if u == t then w u ++ bs else w u) ≡ w' u
sent_to t u bs w w' n e = ap (λ (p : Option ℕ × Streams). p.1 u) e

took :
    (t n : ℕ) (bs : List ℕ) (w w' : Streams)
    → loop_os.recv t n w ≡ (some bs, w')
    → take n (w t) ≡ bs
took t n bs w w' e = some-injective _ _ (ap (λ (p : Option (List ℕ) × Streams). p.0) e)

left_on :
    (t u n : ℕ) (bs : List ℕ) (w w' : Streams)
    → loop_os.recv t n w ≡ (some bs, w')
    → (if u == t then drop n (w u) else w u) ≡ w' u
left_on t u n bs w w' e = ap (λ (p : Option (List ℕ) × Streams). p.1 u) e

ne→test : (u t : ℕ) → u ≢ t → (u == t) ≡ false
ne→test u t h = ground arith

pub loop-SendLaws : SendLaws loop_os stream
loop-SendLaws = record {
  send_progress = λ t bs w w' n e p. rw (sent_all t bs w w' n e) (p, omega arith);
  send_log = λ t bs w w' n e.
      sym (sent_to t t bs w w' n e)
      ∙ rw (eq_refl t, sent_all t bs w w' n e, take_all (length bs) bs (omega arith));
  send_others = λ t u bs w w' n e ne. sym (sent_to t u bs w w' n e) ∙ rw (ne→test u t ne);
  sleep_log = λ ms t w. refl;
}

take_some : (n : ℕ) (xs : List ℕ) → 0 < n → 0 < length xs → 0 < length (take n xs)
take_some zero xs h k = absurd (omega arith)
take_some (suc n) [] h k = absurd (omega arith)
take_some (suc n) (x ∷ xs) h k = omega arith

pub loop-RecvLaws : RecvLaws loop_os stream
loop-RecvLaws = record {
  recv_next = λ t n bs w w' e.
      rw (← left_on t t n bs w w' e, ← took t n bs w w' e, eq_refl t)
        (sym (take-append-drop n (w t)));
  recv_le = λ t n bs w w' e. rw (← took t n bs w w' e) (length-take-le n (w t));
  recv_progress = λ t n bs w w' e h k. rw (← took t n bs w w' e) (take_some n (w t) h k);
  recv_others = λ t u n bs w w' e ne. sym (left_on t u n bs w w' e) ∙ rw (ne→test u t ne);
  sleep_inbox = λ ms t w. refl;
}
