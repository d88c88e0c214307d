-- ===== src/Client/Receive/Stream.antt =====
-- What the loop of `TCPClient::receive` takes from the stream of its socket: exactly one block, in
-- order, into the front of the buffer, or the client ends up with an error and disconnected.
use ossim_tcp_client.Prelude.{
  ℕ, zero, suc, ◌+◌, ◌-◌, ◌≤◌, ◌<◌, ◌≡◌, refl, sym, ◌∙◌, subst, ◌≢◌, inl, inr, List, [], ◌∷◌, ◌++◌,
  Option, none, some, true, false, ℤ, pos, negsuc, ltb, if◌then◌else◌, length, get_elem?, drop,
  arith, append_assoc, Option-cases, length-append, length-drop, drop-drop,
}
use ossim_tcp_client.Bytes.{write_at?}
use ossim_tcp_client.Bytes.Laws.{write_at?-append, shorter_front}
use ossim_tcp_client.Client.Os.{Os, RecvLaws}
use ossim_tcp_client.Client.Monad.{Sys, done, pure, ◌>>=◌, ◌>>◌, Returns, Returns-mono}
use ossim_tcp_client.Client.Base.{set_error, add64, sub64}
use ossim_tcp_client.Client.Send.Stream.{Broken}
use ossim_tcp_client.Client.Receive.{recv_rest, recv_loop}

module _ {W : Type 0} (inbox : W → ℕ → List ℕ) where
  -- Between `s` and `s'` the bytes `bs` came in on `sock`, and `rest` is still to come. Nothing else of
  -- the client changed but its measured time.
  pub record Taken (s s' : Sys W) (sock : ℕ) (bs rest : List ℕ) : Type 0 where
    pub before : inbox s.world sock ≡ bs ++ rest
    pub after : inbox s'.world sock ≡ rest
    pub others : (u : ℕ) → u ≢ sock → inbox s'.world u ≡ inbox s.world u
    pub connection : s'.client.connection ≡ s.client.connection
    pub connection_info : s'.client.connection_info ≡ s.client.connection_info
    pub last_error : s'.client.last_error ≡ s.client.last_error
    pub bytes_received : s'.client.bytes_received ≡ s.client.bytes_received

  -- How the loop of `receive` ends: with `total` bytes and the buffer `mem`, or with -1 and an error.
  abbrev pub RecvPost : Sys W → ℕ → List ℕ → List ℕ → ℕ → List ℕ → ℤ × List ℕ → Sys W → Type 0
  RecvPost s sock bs rest total mem (pos n, mem') s' =
      (n ≡ total) × (mem' ≡ mem) × Taken s s' sock bs rest
  RecvPost s sock bs rest total mem (negsuc e, mem') s' = (e ≡ 0) × Broken s'.client

module _ {W : Type 0} (os : Os W) where
  -- The state after one `::recv` of `n` bytes on `sock`
  abbrev pub after_recv : ℕ → ℕ → Sys W → Sys W
  after_recv sock n s =
      let w : W = (os.recv sock n s.world).1 in
      record {
        client = record s.client {
          received_time =
              if ltb 0 s.client.bytes_received
              then add64 s.client.received_time (sub64 (os.clock w) (os.clock s.world))
              else s.client.received_time;
        };
        world = w;
      }

  pub recv_rest-some :
      (idx sock n total : ℕ) (mem mem' bs : List ℕ) (s : Sys W)
      → get_elem? s.client.connection.sockfd_rcv idx ≡ some sock
      → s.client.connection_info.tcp_buf_size ≡ total
      → (os.recv sock (total - n) s.world).0 ≡ some bs
      → write_at? mem n bs ≡ some mem'
      → recv_rest os idx mem n s ≡ done (some (length bs), mem') (after_recv sock (total - n) s)
  unfolding recv_rest
  recv_rest-some idx sock n total mem mem' bs s e t r w = rw (e, t, r, ◌>>=◌, w, ◌>>=◌)

  pub recv_rest-none :
      (idx sock n total : ℕ) (mem : List ℕ) (s : Sys W)
      → get_elem? s.client.connection.sockfd_rcv idx ≡ some sock
      → s.client.connection_info.tcp_buf_size ≡ total
      → (os.recv sock (total - n) s.world).0 ≡ none
      → recv_rest os idx mem n s ≡ done (none, mem) (after_recv sock (total - n) s)
  unfolding recv_rest
  recv_rest-none idx sock n total mem s e t r = rw (e, t, r, ◌>>=◌)

-- What one `::recv` stored and what the rounds behind it store make up the front of the buffer.
regroup :
    (got bs front tail : List ℕ)
    → length bs ≤ length front
    → bs ++ drop (length bs) front ≡ front
    → (got ++ bs)
        ++ (drop (length bs) front
            ++ drop (length (drop (length bs) front)) (drop (length bs) tail))
      ≡ got ++ (front ++ drop (length front) tail)
regroup got bs front tail l c = rw (
  drop-drop (length bs) (length (drop (length bs) front)) (length front) tail
      (omega (arith, length-drop (length bs) front)),
  append_assoc got bs,
  ← append_assoc bs (drop (length bs) front) (drop (length front) tail),
  c,
)

module _ {W : Type 0} (os : Os W) (inbox : W → ℕ → List ℕ) (laws : RecvLaws os inbox) where
  pair_eq : (p : Option (List ℕ) × W) (bs : List ℕ) → p.0 ≡ some bs → p ≡ (some bs, p.1)
  pair_eq p bs e = rw (← e)

  failed-RecvPost :
      (sock : ℕ) (bs rest mem mem' : List ℕ) (total : ℕ) (s s' : Sys W)
      → Returns
          ((set_error os >> pure (negsuc 0, mem')) s')
          (RecvPost inbox s sock bs rest total mem)
  unfolding set_error
  failed-RecvPost sock bs rest mem mem' total s s' = (refl, ground arith)

  RecvPost-cons :
      (sock n total : ℕ) (bs front front' rest mem : List ℕ) (s : Sys W)
      → (os.recv sock n s.world).0 ≡ some bs
      → bs ++ front' ≡ front
      → (r : ℤ × List ℕ) (s' : Sys W)
      → RecvPost inbox (after_recv os sock n s) sock front' rest total mem r s'
      → RecvPost inbox s sock front rest total mem r s'
  RecvPost-cons sock n total bs front front' rest mem s e f (negsuc k, m) s' p = p
  RecvPost-cons sock n total bs front front' rest mem s e f (pos k, m) s' (p, q, t) = (
    p,
    q,
    record {
      before =
          laws.recv_next sock n bs s.world _ (pair_eq _ bs e) ∙ rw (t.before, ← append_assoc, f);
      after = t.after;
      others = λ u ne. t.others u ne ∙ laws.recv_others sock u n bs s.world _ (pair_eq _ bs e) ne;
      connection = t.connection;
      connection_info = t.connection_info;
      last_error = t.last_error;
      bytes_received = t.bytes_received;
    },
  )

  -- With the bytes of a block still to come, the loop takes exactly these, or it ends with an error;
  -- fuel for one round a byte is enough.
  pub recv_loop-stream :
      (fuel idx sock n total : ℕ) (got tail front rest : List ℕ) (s : Sys W)
      → get_elem? s.client.connection.sockfd_rcv idx ≡ some sock
      → s.client.connection_info.tcp_buf_size ≡ total
      → length got ≡ n
      → inbox s.world sock ≡ front ++ rest
      → n + length front ≡ total
      → length front ≤ length tail
      → length front < fuel
      → Returns
          (recv_loop os fuel idx (got ++ tail) n s)
          (RecvPost inbox s sock front rest total (got ++ (front ++ drop (length front) tail)))
  unfolding recv_loop
  recv_loop-stream zero idx sock n total got tail front rest s e t g i l h f = absurd (omega arith)
  recv_loop-stream (suc fuel) idx sock n total got tail [] rest s e t g i l h f =
      let full : ltb n s.client.connection_info.tcp_buf_size ≡ false = ground arith in
      rw (full, recv_loop)
        (
          omega arith,
          refl,
          record {
            before = i;
            after = i;
            others = λ u ne. refl;
            connection = refl;
            connection_info = refl;
            last_error = refl;
            bytes_received = refl;
          },
        )
  recv_loop-stream (suc fuel) idx sock n total got tail (x ∷ xs) rest s e t g i l h f =
      let front : List ℕ = x ∷ xs in
      let more : ltb n s.client.connection_info.tcp_buf_size ≡ true = ground arith in
      rw (more, recv_loop)
        (elim (Option-cases (os.recv sock (total - n) s.world).0) [
          | inl failed ↦
              rw (recv_rest-none os idx sock n total (got ++ tail) s e t failed, ◌>>=◌)
                (failed-RecvPost sock front rest _ (got ++ tail) total s _)
          | inr (bs, r) ↦
              let got_all = laws.recv_next sock (total - n) bs s.world _ (pair_eq _ bs r) in
              let at_most = laws.recv_le sock (total - n) bs s.world _ (pair_eq _ bs r) in
              let some_bytes : 0 < length bs =
                laws.recv_progress sock (total - n) bs s.world _ (pair_eq _ bs r) (omega arith)
                  (rw i (omega arith)) in
              let (cut, left) = shorter_front front rest bs _ (sym i ∙ got_all) (omega arith) in
              let front' : List ℕ = drop (length bs) front in
              let w = write_at?-append got tail bs n g (omega arith) in
              rw (recv_rest-some os idx sock n total (got ++ tail) _ bs s e t r w, ◌>>=◌)
                (rw (← append_assoc got bs (drop (length bs) tail)) (
                  Returns-mono _ _ _
                    (recv_loop-stream fuel idx sock (n + length bs) total (got ++ bs)
                      (drop (length bs) tail) front' rest (after_recv os sock (total - n) s) e t
                      (omega (arith, length-append got bs)) left
                      (omega (arith, length-drop (length bs) front))
                      (omega (arith, length-drop (length bs) front, length-drop (length bs) tail))
                      (omega (arith, length-drop (length bs) front)))
                    (λ v s' p.
                      subst (λ m. RecvPost inbox s sock front rest total m v s')
                        (regroup got bs front tail (omega arith) cut)
                        (RecvPost-cons sock (total - n) total bs front front' rest _ s r cut v s'
                          p))))
        ])
