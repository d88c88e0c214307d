-- ===== src/Client/Chunks/Pieces.antt =====
-- What a call of `send_data_block` puts on the stream of a client with one socket.
use ossim_tcp_client.Prelude.{
  ℕ, ◌+◌, ◌-◌, ◌%◌, ◌^◌, ◌<◌, ◌≤◌, ◌≡◌, refl, List, [], ◌++◌, some, true, false, ℤ, pos, negsuc,
  ◌==◌, ltb, if◌then◌else◌, length, replicate, arith, append_assoc, append-nil, Bool-cases, inl,
  inr, ◌⊎◌, length-append, length-replicate, eq_refl,
}
use ossim_tcp_client.Bytes.{u_int64_to_char8}
use ossim_tcp_client.Bytes.Laws.{length-u_int64_to_char8}
use ossim_tcp_client.Protocol.{StatusInfo}
use ossim_tcp_client.Protocol.DataTypes
use ossim_tcp_client.Client.Os.{Os, SendLaws}
use ossim_tcp_client.Client.Monad.{Sys, Returns, Returns-bind, Returns-mono}
use ossim_tcp_client.Client.Base.{sub64}
use ossim_tcp_client.Client.Send.{send_need}
use ossim_tcp_client.Client.Send.Stream.{Broken}
use ossim_tcp_client.Client.Chunks.{
  SendChunks, chunks_header, send_header, send_pad, after_chunk, send_chunk, send_data_block,
  is_processing, header_status,
}
use ossim_tcp_client.Client.Chunks.Need.{OneSocket, NeedPost, send_need-NeedPost}

-- The zeros behind the data, up to a multiple of 8 bytes
abbrev pub padding : ℕ → List ℕ
padding data_size = if data_size % 8 == 0 then [] else replicate (8 - data_size % 8) 0

-- The header stands in front of the first bytes, the padding behind the last ones.
abbrev pub front : SendChunks → List ℕ
front sc = if sc.need_bytes_send == sc.data_size then chunks_header sc.data_size else []

abbrev pub back : SendChunks → List ℕ → List ℕ
back sc bs = if sc.need_bytes_send == length bs then padding sc.data_size else []

length-chunks_header : (n : ℕ) → length (chunks_header n) ≡ 16
length-chunks_header n = omega (
  arith,
  length-append (u_int64_to_char8 n) (u_int64_to_char8 DataTypes.data_block),
  length-u_int64_to_char8 n,
  length-u_int64_to_char8 DataTypes.data_block,
)

module _ {W : Type 0} (os : Os W) (log : W → ℕ → List ℕ) (laws : SendLaws os log) (sock : ℕ) where
  -- Between `s` and `s'` the bytes `out` went out, and the object counts `bs` as sent.
  pub record Piece (sc : SendChunks) (s : Sys W) (bs out : List ℕ) (sc' : SendChunks) (s' : Sys W)
      : Type 0 where
    pub written : log s'.world sock ≡ log s.world sock ++ out
    pub one : OneSocket sock s'.client
    pub need : sc'.need_bytes_send ≡ sc.need_bytes_send - length bs
    pub size : sc'.data_size ≡ sc.data_size
    pub status : sc'.status ≡ (
        if sc.need_bytes_send == length bs then StatusInfo.all_data else StatusInfo.data_processing)

  abbrev pub ChunkPost : SendChunks → Sys W → List ℕ → List ℕ → ℤ × SendChunks → Sys W → Type 0
  ChunkPost sc s bs out r s' =
      (Broken s'.client × (is_processing r.1.status ≡ false)) ⊎ Piece sc s bs out r.1 s'

  send_pad_result :
      (n : ℕ) (sc : SendChunks) (bs : List ℕ) (s : Sys W) (r : ℤ) (s' : Sys W)
      → NeedPost log sock s bs r s'
      → Broken s'.client ⊎ (OneSocket sock s'.client × (log s'.world sock ≡ log s.world sock ++ bs))
  send_pad_result n sc bs s (pos k) s' (e, one, w) = inr (one, w)
  send_pad_result n sc bs s (negsuc k) s' (e, p) = inl p

  send_pad-padding :
      (fuel n : ℕ) (sc : SendChunks) (s : Sys W)
      → OneSocket sock s.client
      → 9 < fuel
      → Returns (send_pad os fuel n sc s) (λ r s'.
        (r.1 ≡ sc)
        × (Broken s'.client
            ⊎ (OneSocket sock s'.client
                × (log s'.world sock ≡ log s.world sock ++ padding sc.data_size))))
  unfolding send_pad
  send_pad-padding fuel n sc s one h = elim (Bool-cases (sc.data_size % 8 == 0)) [
    | inl whole ↦
        let z : ltb (8 - sc.data_size % 8) 8 ≡ false = ground arith in
        rw (z, send_pad, whole, append-nil) (refl, inr (one, refl))
    | inr part ↦
        let z : ltb (8 - sc.data_size % 8) 8 ≡ true = ground arith in
        let zeros : List ℕ = replicate (8 - sc.data_size % 8) 0 in
        let len : length zeros ≡ 8 - sc.data_size % 8 = length-replicate _ 0 in
        rw (z, send_pad, part)
          (Returns-bind (send_need os fuel (some zeros) (8 - sc.data_size % 8)) _ s
            (NeedPost log sock s zeros) _
            (rw len at (send_need-NeedPost os log laws sock fuel zeros s one (omega arith)))
            (λ r s' p. (refl, send_pad_result n sc zeros s r s' p)))
  ]

  after_pad :
      (sc : SendChunks) (s s' s'' : Sys W) (bs : List ℕ) (sc' : SendChunks)
      → log s'.world sock ≡ log s.world sock ++ bs
      → sc.need_bytes_send ≡ length bs
      → sc' ≡ record sc { need_bytes_send = 0; status = StatusInfo.all_data }
      → Broken s''.client
        ⊎ (OneSocket sock s''.client
            × (log s''.world sock ≡ log s'.world sock ++ padding sc.data_size))
      → (Broken s''.client × (is_processing sc'.status ≡ false))
        ⊎ Piece sc s bs (bs ++ back sc bs) sc' s''
  after_pad sc s s' s'' bs sc' w e q (inl broken) = inl (broken, rw q refl)
  after_pad sc s s' s'' bs sc' w e q (inr (one, w')) =
      let done_all : (sc.need_bytes_send == length bs) ≡ true = rw e (eq_refl (length bs)) in
      rw q (
        inr (record {
          written =
              rw (done_all, ← append_assoc (log s.world sock) bs (padding sc.data_size), ← w) w';
          one = one;
          need = omega arith;
          size = refl;
          status = rw done_all refl;
        }))

  after_chunk-Piece :
      (fuel : ℕ) (sc : SendChunks) (bs : List ℕ) (s : Sys W)
      → 9 < fuel
      → sc.status ≡ StatusInfo.data_processing
      → length bs ≤ sc.need_bytes_send
      → sc.need_bytes_send < 2 ^ 64
      → (r : ℤ) (s' : Sys W) → NeedPost log sock s bs r s'
      → Returns (after_chunk os fuel sc r s') (ChunkPost sc s bs (bs ++ back sc bs))
  unfolding after_chunk
  after_chunk-Piece fuel sc bs s hf st le hi (negsuc e) s' (_, broken) = inl (broken, refl)
  after_chunk-Piece fuel sc bs s hf st le hi (pos n) s' (e, one, w) =
      let left : sub64 sc.need_bytes_send n ≡ sc.need_bytes_send - length bs = omega arith in
      elim (Bool-cases (sc.need_bytes_send - length bs == 0)) [
        | inl all ↦
            let same : sc.need_bytes_send ≡ length bs = ground arith in
            let zero_left : sc.need_bytes_send - length bs ≡ 0 = omega arith in
            let sc₀ : SendChunks = record sc {
              need_bytes_send = 0;
              status = StatusInfo.all_data;
            } in
            rw (left, all, after_chunk, left, zero_left)
              (Returns-mono _ _ _ (send_pad-padding fuel n sc₀ s' one hf)
                (λ (r : ℤ × SendChunks) s'' p. after_pad sc s s' s'' bs r.1 w same p.0 p.1))
        | inr more ↦
            let part : (sc.need_bytes_send == length bs) ≡ false = ground arith in
            rw (left, more, after_chunk, left, part, append-nil)
              (inr
                (record { written = w; one = one; need = refl; size = refl; status = rw part st }))
      ]

  send_chunk-Piece :
      (fuel : ℕ) (bs : List ℕ) (sc : SendChunks) (s : Sys W)
      → OneSocket sock s.client
      → 9 < fuel
      → length bs + 1 < fuel
      → sc.status ≡ StatusInfo.data_processing
      → length bs ≤ sc.need_bytes_send
      → sc.need_bytes_send < 2 ^ 64
      → Returns
          (send_chunk os fuel (some bs) (length bs) sc s)
          (ChunkPost sc s bs (bs ++ back sc bs))
  unfolding send_chunk
  send_chunk-Piece fuel bs sc s one hf hb st le hi =
      let proc : is_processing sc.status ≡ true = rw st refl in
      let len : (if ltb sc.need_bytes_send (length bs) then sc.need_bytes_send else length bs)
          ≡ length bs =
        ground arith in
      rw (proc, send_chunk, len)
        (Returns-bind (send_need os fuel (some bs) (length bs)) _ s (NeedPost log sock s bs) _
          (send_need-NeedPost os log laws sock fuel bs s one hb)
          (after_chunk-Piece fuel sc bs s hf st le hi))

  -- How `send_header` ends
  HeaderPost : SendChunks → Sys W → ℤ × SendChunks → Sys W → Type 0
  HeaderPost sc s r s' =
      (Broken s'.client × (r.1.status ≡ StatusInfo.error))
      ⊎ ((r.1 ≡ record sc { status = StatusInfo.data_processing })
          × OneSocket sock s'.client
          × (log s'.world sock ≡ log s.world sock ++ chunks_header sc.data_size))

  header_result :
      (sc : SendChunks) (s : Sys W) (r : ℤ) (s' : Sys W)
      → NeedPost log sock s (chunks_header sc.data_size) r s'
      → HeaderPost sc s (r, header_status r sc) s'
  unfolding HeaderPost
  header_result sc s (negsuc e) s' (_, broken) = inl (broken, refl)
  header_result sc s (pos n) s' (e, one, w) =
      let z : n ≡ 16 = omega (arith, length-chunks_header sc.data_size) in inr (rw z refl, one, w)

  send_header-HeaderPost :
      (fuel : ℕ) (sc : SendChunks) (s : Sys W)
      → OneSocket sock s.client
      → 17 < fuel
      → Returns (send_header os fuel sc s) (HeaderPost sc s)
  unfolding send_header
  send_header-HeaderPost fuel sc s one h =
      Returns-bind (send_need os fuel (some (chunks_header sc.data_size)) 16) _ s
        (NeedPost log sock s (chunks_header sc.data_size)) _
        (rw (length-chunks_header sc.data_size) at (
          send_need-NeedPost os log laws sock fuel (chunks_header sc.data_size) s one
            (omega (arith, length-chunks_header sc.data_size))))
        (λ r s' p. header_result sc s r s' p)

  with_front :
      (sc : SendChunks) (s s' : Sys W) (bs out : List ℕ) (r : ℤ × SendChunks) (s'' : Sys W)
      → log s'.world sock ≡ log s.world sock ++ chunks_header sc.data_size
      → ChunkPost (record sc { status = StatusInfo.data_processing }) s' bs out r s''
      → ChunkPost sc s bs (chunks_header sc.data_size ++ out) r s''
  with_front sc s s' bs out r s'' w (inl broken) = inl broken
  with_front sc s s' bs out r s'' w (inr q) = inr (record {
    written =
        rw (← append_assoc (log s.world sock) (chunks_header sc.data_size) out, ← w) q.written;
    one = q.one;
    need = q.need;
    size = q.size;
    status = q.status;
  })

  first_chunk :
      (fuel : ℕ) (bs : List ℕ) (sc : SendChunks) (s : Sys W)
      → length bs + 1 < fuel
      → 9 < fuel
      → length bs ≤ sc.need_bytes_send
      → sc.need_bytes_send < 2 ^ 64
      → (r : ℤ × SendChunks) (s' : Sys W) → HeaderPost sc s r s'
      → Returns
          (send_chunk os fuel (some bs) (length bs) r.1 s')
          (ChunkPost sc s bs (chunks_header sc.data_size ++ (bs ++ back sc bs)))
  unfolding HeaderPost send_chunk
  first_chunk fuel bs sc s hb hf le hi r s' (inl (broken, e)) =
      rw (e, send_chunk) (inl (broken, rw e refl))
  first_chunk fuel bs sc s hb hf le hi r s' (inr (e, one, w)) = rw e (
      Returns-mono _ _ _
        (send_chunk-Piece fuel bs (record sc { status = StatusInfo.data_processing }) s' one hf hb
          refl le hi)
        (λ r' s'' p. with_front sc s s' bs (bs ++ back sc bs) r' s'' w p))

  -- A call of `send_data_block` on an object in progress, with no more bytes than it still has to send,
  -- ends: the client is broken and the object is not in progress any more, or exactly these bytes went out, behind the header if they are the
  -- first ones, and in front of zeros up to a multiple of 8 if they are the last ones; the object then
  -- counts them, and has the status AllData if they are the last ones.
  pub send_data_block-Piece :
      (fuel : ℕ) (bs : List ℕ) (sc : SendChunks) (s : Sys W)
      → OneSocket sock s.client
      → 17 < fuel
      → length bs + 1 < fuel
      → sc.status ≡ StatusInfo.data_processing
      → length bs ≤ sc.need_bytes_send
      → sc.need_bytes_send < 2 ^ 64
      → Returns
          (send_data_block os (send_header os) fuel (some bs) (length bs) sc s)
          (ChunkPost sc s bs (front sc ++ (bs ++ back sc bs)))
  unfolding send_data_block
  send_data_block-Piece fuel bs sc s one hf hb st le hi =
      elim (Bool-cases (sc.need_bytes_send == sc.data_size)) [
        | inl first ↦
            rw (first, send_data_block)
              (Returns-bind (send_header os fuel sc) _ s (HeaderPost sc s) _
                (send_header-HeaderPost fuel sc s one hf)
                (first_chunk fuel bs sc s hb (omega arith) le hi))
        | inr later ↦
            rw (later, send_data_block)
              (send_chunk-Piece fuel bs sc s one (omega arith) hb st le hi)
      ]
