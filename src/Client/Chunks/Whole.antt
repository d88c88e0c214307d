-- ===== src/Client/Chunks/Whole.antt =====
-- A stream that is sent in chunks, as the example above SendChunks in src/tcpclient.h does it.
use ossim_tcp_client.Prelude.{
  ℤ, ◌∙◌, subst, ℕ, ◌+◌, ◌^◌, ◌<◌, ◌≤◌, ◌≡◌, refl, List, [], ◌∷◌, ◌++◌, some, true, false, ◌==◌,
  length, arith, append_assoc, append-nil, Bool-cases, inl, inr, ◌⊎◌, length-append, eq_refl,
}
use ossim_tcp_client.Frames.{joined}
use ossim_tcp_client.Protocol.{StatusInfo}
use ossim_tcp_client.Client.Os.{Os, SendLaws}
use ossim_tcp_client.Client.Monad.{Sys, M, Returns, Returns-bind, Returns-mono, pure, ◌>>=◌}
use ossim_tcp_client.Client.Send.Stream.{Broken}
use ossim_tcp_client.Client.Chunks.{
  SendChunks, new_send_chunks, chunks_header, send_header, send_data_block, is_processing,
}
use ossim_tcp_client.Client.Chunks.Need.{OneSocket}
use ossim_tcp_client.Client.Chunks.Pieces.{padding, front, back, ChunkPost, send_data_block-Piece}

-- Chunks of at least one byte, and at most `limit`
pub data AreChunks (limit : ℕ) : List (List ℕ) → Type 0 where
  none_left : AreChunks limit []
  next :
      {c : List ℕ} {cs : List (List ℕ)}
      → 0 < length c
      → length c ≤ limit
      → AreChunks limit cs
      → AreChunks limit (c ∷ cs)

module _ {W : Type 0} (os : Os W) where
  -- `while (sc.getStatus() == StatusInfo::DataProcessing) sc.send_data_block(…)`
  abbrev pub send_all : ℕ → List (List ℕ) → SendChunks → M W SendChunks
  send_all fuel [] sc = pure sc
  send_all fuel (c ∷ cs) sc = elim (is_processing sc.status) [
    | true ↦ send_data_block os (send_header os) fuel (some c) (length c) sc >>= λ r.
        send_all fuel cs r.1
    | false ↦ pure sc
  ]

module _ {W : Type 0} (os : Os W) (log : W → ℕ → List ℕ) (laws : SendLaws os log) (sock : ℕ) where
  -- How the loop ends: with a broken client, or with `out` on the stream and all data sent.
  abbrev pub WholePost : Sys W → List ℕ → SendChunks → Sys W → Type 0
  WholePost s out sc s' =
      Broken s'.client
      ⊎ ((log s'.world sock ≡ log s.world sock ++ out) × (sc.status ≡ StatusInfo.all_data))

  send_all-stopped :
      (fuel : ℕ) (cs : List (List ℕ)) (sc : SendChunks) (s : Sys W)
      → is_processing sc.status ≡ false
      → send_all os fuel cs sc s ≡ pure sc s
  send_all-stopped fuel [] sc s e = refl
  send_all-stopped fuel (c ∷ cs) sc s e = rw (e, send_all) refl

  no_chunks :
      (limit : ℕ) (cs : List (List ℕ)) → AreChunks limit cs → length (joined cs) ≡ 0 → cs ≡ []
  no_chunks limit [] a e = refl
  no_chunks limit (c ∷ cs) (AreChunks.next p l a) e =
      absurd (omega (arith, length-append c (joined cs)))

  then_rest :
      (s s' : Sys W) (head rest pad : List ℕ) (c : List ℕ) (sc : SendChunks) (s'' : Sys W)
      → log s'.world sock ≡ log s.world sock ++ (head ++ c)
      → WholePost s' (rest ++ pad) sc s''
      → WholePost s (head ++ ((c ++ rest) ++ pad)) sc s''
  then_rest s s' head rest pad c sc s'' w (inl broken) = inl broken
  then_rest s s' head rest pad c sc s'' w (inr (w', st)) = inr (
    rw
        (
          append_assoc c rest pad,
          ← append_assoc head c (rest ++ pad),
          ← append_assoc (log s.world sock) (head ++ c) (rest ++ pad),
          ← w,
        )
        w',
    st,
  )

  after_one :
      (fuel limit : ℕ) (c : List ℕ) (cs : List (List ℕ)) (sc : SendChunks) (s : Sys W)
      → AreChunks limit cs
      → 0 < length c
      → length c + length (joined cs) ≡ sc.need_bytes_send
      → sc.need_bytes_send ≤ sc.data_size
      → ((sc' : SendChunks) (s' : Sys W)
          → OneSocket sock s'.client
          → sc'.status ≡ StatusInfo.data_processing
          → length (joined cs) ≡ sc'.need_bytes_send
          → 0 < sc'.need_bytes_send
          → sc'.need_bytes_send < sc'.data_size
          → sc'.data_size ≡ sc.data_size
          → Returns (send_all os fuel cs sc' s') (WholePost s' (joined cs ++ padding sc.data_size)))
      → (r : ℤ × SendChunks) (s' : Sys W)
      → ChunkPost os log laws sock sc s c (front sc ++ (c ++ back sc c)) r s'
      → Returns
          (send_all os fuel cs r.1 s')
          (WholePost s (front sc ++ ((c ++ joined cs) ++ padding sc.data_size)))
  after_one fuel limit c cs sc s a p sum le ih r s' (inl (broken, e)) =
      rw (send_all-stopped fuel cs r.1 s' e) (inl broken)
  after_one fuel limit c cs sc s a p sum le ih r s' (inr q) =
      elim (Bool-cases (sc.need_bytes_send == length c)) [
        | inl all ↦
            let none : cs ≡ [] = no_chunks limit cs a (ground arith) in
            rw (none, append-nil c) (inr (rw all at q.written, q.status ∙ rw all refl))
        | inr more ↦
            let lt : length c < sc.need_bytes_send = ground arith in
            let n = q.need in
            let d = q.size in
            Returns-mono _ _ _
              (ih r.1 s' q.one (q.status ∙ rw more refl) (omega arith) (omega arith) (omega arith)
                q.size)
              (λ sc'' s'' h.
                then_rest s s' (front sc) (joined cs) (padding sc.data_size) c sc'' s''
                  (rw (more, append-nil c) at q.written) h)
      ]

  send_all-chunks :
      (fuel limit : ℕ) (cs : List (List ℕ)) (sc : SendChunks) (s : Sys W)
      → OneSocket sock s.client
      → 17 + limit < fuel
      → AreChunks limit cs
      → sc.status ≡ StatusInfo.data_processing
      → length (joined cs) ≡ sc.need_bytes_send
      → 0 < sc.need_bytes_send
      → sc.need_bytes_send ≤ sc.data_size
      → sc.data_size < 2 ^ 64
      → Returns
          (send_all os fuel cs sc s)
          (WholePost s (front sc ++ (joined cs ++ padding sc.data_size)))
  send_all-chunks fuel limit [] sc s one hf a st e lo le hi = absurd (omega arith)
  send_all-chunks fuel limit (c ∷ cs) sc s one hf (AreChunks.next p l a) st e lo le hi =
      let proc : is_processing sc.status ≡ true = rw st refl in
      let sum : length c + length (joined cs) ≡ sc.need_bytes_send =
        omega (arith, length-append c (joined cs)) in
      rw (proc, send_all)
        (Returns-bind (send_data_block os (send_header os) fuel (some c) (length c) sc) _ s
          (ChunkPost os log laws sock sc s c (front sc ++ (c ++ back sc c))) _
          (send_data_block-Piece os log laws sock fuel c sc s one (omega arith) (omega arith) st
            (omega arith) (omega arith))
          (after_one fuel limit c cs sc s a p sum le (λ sc' s' one' st' e' lo' lt same.
            let no_front : (sc'.need_bytes_send == sc'.data_size) ≡ false = ground arith in
            subst
              (λ d. Returns (send_all os fuel cs sc' s') (WholePost s' (joined cs ++ padding d)))
              same
              (rw no_front at (
                send_all-chunks fuel limit cs sc' s' one' hf a st' e' lo' (omega arith)
                  (omega arith))))))

  -- A stream of at least one byte, sent from a new SendChunks object of its size in chunks that are not
  -- empty: the loop ends, and the client is broken, or exactly the header, the stream and zeros up to
  -- a multiple of 8 bytes went out, and the object has the status AllData.
  pub send_all-stream :
      (fuel limit : ℕ) (cs : List (List ℕ)) (block_size : ℕ) (s : Sys W)
      → OneSocket sock s.client
      → 17 + limit < fuel
      → AreChunks limit cs
      → 0 < length (joined cs)
      → length (joined cs) < 2 ^ 64
      → Returns (send_all os fuel cs (new_send_chunks (length (joined cs)) block_size) s) (
          WholePost s
            (chunks_header (length (joined cs)) ++ (joined cs ++ padding (length (joined cs)))))
  send_all-stream fuel limit cs block_size s one hf a lo hi = rw (eq_refl (length (joined cs))) at (
      send_all-chunks fuel limit cs (new_send_chunks (length (joined cs)) block_size) s one hf a
        refl refl lo (omega arith) hi)
