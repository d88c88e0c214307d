-- ===== src/Client/Send/TcpIo.antt =====
-- `TCPClient::send_to_tcp_io` produces the wire format: its data, cut into frames of one block each
-- and dealt out to the sockets in turn.
use ossim_tcp_client.Prelude.{
  ℕ, zero, suc, ◌+◌, ◌-◌, ◌*◌, ◌/◌, ◌%◌, ◌≤◌, ◌<◌, ◌≡◌, refl, sym, inl, inr, List, [], ◌∷◌, ◌++◌,
  some, true, false, ℤ, pos, negsuc, ltb, leb, length, get_elem?, take, drop, replicate, arith,
  Bool-cases, le→leb, length-append, length-drop, length-replicate, take_all, drop_all, drop-drop,
  take-append-drop, get_elem?-lt,
}
use ossim_tcp_client.Frames.{frame, FramesOf}
use ossim_tcp_client.Protocol.DataTypes
use ossim_tcp_client.Client.Os.{Os, SendLaws}
use ossim_tcp_client.Client.Monad.{Sys, M, Returns, Returns-bind, Returns-mono}
use ossim_tcp_client.Client.Send.{
  Block, new_block, send_block, after_block, blocks_loop, send_to_tcp_io,
}
use ossim_tcp_client.Client.Send.Method.{CanSend, Sent, SendPost}
use ossim_tcp_client.Client.Send.Blocks.{
  Sent-CanSend, length-chunk, send_block-SendPost, Dealt, BlocksPost, Dealt-nil, Dealt-cons,
  BlocksPost-cons,
}

split_at : (n off : ℕ) (bs : List ℕ) → drop off bs ≡ take n (drop off bs) ++ drop (off + n) bs
split_at n off bs =
    rw (← drop-drop off n (off + n) bs refl) (sym (take-append-drop n (drop off bs)))

-- The sizes of a block that the methods work with: whole words, and room behind the header
abbrev pub IsBlockSize : ℕ → Type 0
IsBlockSize n = (24 ≤ n) × (n % 8 ≡ 0)

-- The block of a round that does not send the last bytes of a stream
pub record IsFull (b : Block) (buf_size : ℕ) : Type 0 where
  pub size : b.word0 + 16 ≡ buf_size
  pub kind : b.word1 ≡ DataTypes.data_block
  pub body : length b.body + 16 ≡ buf_size

pub new_block-IsFull :
    (buf_size : ℕ)
    → IsBlockSize buf_size
    → (b : Block) × (new_block buf_size ≡ some b) × (length b.body + 16 ≡ buf_size)
unfolding new_block
new_block-IsFull buf_size (lo, whole) = (
  record { word0 = 0; word1 = 0; body = replicate (8 * (buf_size / 8) - 16) 0 },
  rw (le→leb 2 (buf_size / 8) (omega arith)),
  omega (arith, length-replicate {A = ℕ} (8 * (buf_size / 8) - 16) 0),
)

module _ {W : Type 0} (os : Os W) (log : W → ℕ → List ℕ) (laws : SendLaws os log) where
  -- The last round: what is left fits one frame.
  pub last_frame :
      (room sock : ℕ) (bs tail : List ℕ) (s s' : Sys W)
      → length bs + length tail ≡ room
      → CanSend s.client
      → get_elem? s.client.connection.sockfd_send s.client.connection.i_socket_send ≡ some sock
      → Sent log s s' sock (frame bs tail)
      → (fs : List (List ℕ)) × FramesOf room bs fs × Dealt log s s' fs
  last_frame room sock bs tail s s' e can g d = (
    frame bs tail ∷ [],
    FramesOf.last tail e refl,
    Dealt-cons log s s' s' sock (frame bs tail) [] g d
        (Dealt-nil log s' (Sent-CanSend log s s' sock (frame bs tail) can d)),
  )

  after_last :
      (room sock : ℕ) (bs all tail : List ℕ) (off : ℕ) (next : Block → M W ℤ) (s : Sys W)
      → length bs + length tail ≡ room
      → length all ≤ off
      → CanSend s.client
      → get_elem? s.client.connection.sockfd_send s.client.connection.i_socket_send ≡ some sock
      → (r : ℤ × Block) (s' : Sys W) → SendPost log s sock (frame bs tail) r.0 s'
      → Returns (after_block os (length all) off next r s') (BlocksPost log room s bs (length all))
  unfolding after_block
  after_last room sock bs all tail off next s e o can g (negsuc k, b) s' p = (refl, p.1)
  after_last room sock bs all tail off next s e o can g (pos k, b) s' p =
      let z : ltb 0 (length all - off) ≡ false = ground arith in
      rw (z, after_block) (refl, last_frame room sock bs tail s s' e can g p.1)

  after_full :
      (room sock : ℕ) (bs chunk rest all : List ℕ) (off : ℕ) (next : Block → M W ℤ) (b : Block)
      (s : Sys W)
      → bs ≡ chunk ++ rest
      → length chunk ≡ room
      → 0 < length rest
      → off < length all
      → CanSend s.client
      → get_elem? s.client.connection.sockfd_send s.client.connection.i_socket_send ≡ some sock
      → ((s' : Sys W)
          → CanSend s'.client
          → Returns (next b s') (BlocksPost log room s' rest (length all)))
      → (r : ℤ × Block) (s' : Sys W) → r.1 ≡ b
      → SendPost log s sock (frame chunk []) r.0 s'
      → Returns (after_block os (length all) off next r s') (BlocksPost log room s bs (length all))
  unfolding after_block
  after_full room sock bs chunk rest all off next b s whole e pos_rest o can g ih (negsuc k, b') s'
        q p =
      (refl, p.1)
  after_full room sock bs chunk rest all off next b s whole e pos_rest o can g ih (pos k, b') s' q
        p =
      let z : ltb 0 (length all - off) ≡ true = ground arith in
      rw (z, after_block, q)
        (Returns-mono _ _ _ (ih s' (Sent-CanSend log s s' sock (frame chunk []) can p.1))
          (BlocksPost-cons log room s s' sock bs chunk rest (length all) whole g e pos_rest p.1))

  pub blocks_loop-frames :
      (fuel : ℕ) (bs : List ℕ) (buf_size off : ℕ) (b : Block) (s : Sys W)
      → CanSend s.client
      → 16 < buf_size
      → off ≤ length bs
      → buf_size + (length bs - off) + 1 < fuel
      → IsFull b buf_size
      → Returns
          (blocks_loop os fuel bs (length bs) buf_size b (buf_size - 16) off (length bs - off) s)
          (BlocksPost log (buf_size - 16) s (drop off bs) (length bs))
  unfolding blocks_loop
  blocks_loop-frames zero bs buf_size off b s can h o f full = absurd (omega arith)
  blocks_loop-frames (suc fuel) bs buf_size off b s can h o f full =
      let (sock, g) =
        get_elem?-lt s.client.connection.sockfd_send s.client.connection.i_socket_send
          can.in_range in
      elim (Bool-cases (ltb (length bs - off) (buf_size - 16))) [
        | inl last ↦
            let n : ℕ = length bs - off in
            let b' : Block = record b { word0 = n } in
            let chunk : List ℕ = take n (drop off bs) in
            let whole : chunk ≡ drop off bs =
              take_all n (drop off bs) (omega (arith, length-drop off bs)) in
            rw (last, blocks_loop)
              (Returns-bind (send_block os fuel bs buf_size off b' n) _ s
                (λ r s'.
                  (r.1 ≡ record b' { body = chunk ++ drop n b.body })
                  × SendPost log s sock (frame chunk (drop n b.body)) r.0 s')
                _
                (send_block-SendPost os log laws fuel sock bs buf_size off n b' s can g
                  (omega arith) (omega arith) (ground arith) full.body refl full.kind)
                (λ r s' p.
                  after_last (buf_size - 16) sock (drop off bs) bs (drop n b.body) (off + n) _ s
                    (ground (arith, length-drop off bs, length-drop n b.body)) (omega arith) can g r
                    s' (rw whole at p.1)))
        | inr more ↦
            let room : ℕ = buf_size - 16 in
            let chunk : List ℕ = take room (drop off bs) in
            let no_tail : drop room b.body ≡ [] = drop_all room b.body (omega arith) in
            let fits : off + room ≤ length bs = ground arith in
            rw (more, blocks_loop)
              (Returns-bind (send_block os fuel bs buf_size off b room) _ s
                (λ r s'.
                  (r.1 ≡ record b { body = chunk ++ drop room b.body })
                  × SendPost log s sock (frame chunk (drop room b.body)) r.0 s')
                _
                (send_block-SendPost os log laws fuel sock bs buf_size off room b s can g
                  (omega arith) fits (omega arith) full.body (omega arith) full.kind)
                (λ r s' p. elim (Bool-cases (leb (length bs) (off + room))) [
                  | inl all ↦
                      let whole : chunk ≡ drop off bs =
                        take_all room (drop off bs) (ground (arith, length-drop off bs)) in
                      after_last room sock (drop off bs) bs (drop room b.body) (off + room) _ s
                        (ground (arith, length-drop off bs, length-drop room b.body)) (ground arith)
                        can g r s' (rw whole at p.1)
                  | inr left ↦
                      let b' : Block = record b { body = chunk ++ drop room b.body } in
                      after_full room sock (drop off bs) chunk (drop (off + room) bs) bs
                        (off + room) _ b' s (split_at room off bs) (length-chunk bs off room fits)
                        (ground (arith, length-drop (off + room) bs)) (ground arith) can g
                        (λ s₁ can₁.
                          blocks_loop-frames fuel bs buf_size (off + room) b' s₁ can₁ h fits
                            (ground arith)
                            (record {
                              size = full.size;
                              kind = full.kind;
                              body = omega (
                                arith,
                                length-append chunk (drop room b.body),
                                length-chunk bs off room fits,
                                length-drop room b.body,
                              );
                            }))
                        r s' p.0 (rw no_tail at p.1)
                ]))
      ]

  -- On a client that can send (no recorded error, a turn in range, fewer than 256 sockets) and
  -- with a block size of whole words from 24 on, `send_to_tcp_io` of a whole buffer ends, with
  -- fuel above the block size and the length: it answers the length after it has dealt out frames
  -- that carry exactly the buffer's bytes, or it answers -1 and leaves a broken client.
  pub send_to_tcp_io-frames :
      (fuel : ℕ) (bs : List ℕ) (s : Sys W)
      → CanSend s.client
      → IsBlockSize s.client.connection_info.tcp_buf_size
      → s.client.connection_info.tcp_buf_size + length bs + 1 < fuel
      → Returns
          (send_to_tcp_io os fuel (some bs) (length bs) s)
          (BlocksPost log (s.client.connection_info.tcp_buf_size - 16) s bs (length bs))
  unfolding send_to_tcp_io
  send_to_tcp_io-frames fuel bs s can size f =
      let n : ℕ = s.client.connection_info.tcp_buf_size in
      let (b, e, l) = new_block-IsFull n size in
      let all : length bs - 0 ≡ length bs = omega arith in
      rw e (
        rw all at (
          blocks_loop-frames fuel bs n 0 (record b { word0 = n - 16; word1 = DataTypes.data_block })
            s can (omega arith) (omega arith) (omega arith)
            (record { size = omega arith; kind = refl; body = l })))
