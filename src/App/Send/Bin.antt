-- ===== src/App/Send/Bin.antt =====
-- `sendBinFile` (src/tcpclientapp.cpp) puts out the frames of its file.
use ossim_tcp_client.Prelude.{
  ℕ, zero, suc, ◌+◌, ◌-◌, ◌<◌, ◌≤◌, ◌≡◌, refl, sym, List, [], ◌∷◌, ◌++◌, some, Bool, true, false, ℤ,
  pos, negsuc, ltb, ◌==◌, length, get_elem?, take, drop, replicate, arith, append-nil, inl, inr,
  length-replicate, length-take, length-drop, take_all, drop_all, take-append-drop, get_elem?-lt,
  Bool-cases,
}
use ossim_tcp_client.Bytes.Laws.{write_at?-front}
use ossim_tcp_client.Frames.{frame, FramesOf, length-frame}
use ossim_tcp_client.Client.Os.{Os, SendLaws}
use ossim_tcp_client.Client.Monad.{Sys, M, Returns, Returns-bind, Returns-mono, ◌>>=◌}
use ossim_tcp_client.Client.Send.{Block, send}
use ossim_tcp_client.Client.Send.Stream.{Broken}
use ossim_tcp_client.Client.Send.Method.{CanSend, Sent, SendPost, send-SendPost}
use ossim_tcp_client.Client.Send.Blocks.{Dealt, Dealt-cons, Sent-CanSend, block_bytes-frame}
use ossim_tcp_client.Client.Send.TcpIo.{IsBlockSize, IsFull, last_frame}
use ossim_tcp_client.App.Send.{bin_block, after_bin_block, bin_send_loop}

-- The block of the last bytes of a file, and that of a full round
bin_block-last :
    (chunk : List ℕ) (n : ℕ) (b : Block)
    → IsFull b n
    → length chunk + 16 ≤ n
    → bin_block true chunk n b
      ≡ some (record b {
        word0 = length chunk;
        body = chunk ++ drop (length chunk) (replicate (n - 16) 0);
      })
unfolding bin_block
bin_block-last chunk n b full h =
    let zeros : List ℕ = replicate (n - 16) 0 in
    let size : length zeros ≡ n - 16 = length-replicate (n - 16) 0 in
    rw
      (
        bin_block,
        write_at?-front b.body zeros (n - 16) size (omega (arith, full.body)),
        drop_all (n - 16) b.body (omega (arith, full.body)),
        append-nil zeros,
        write_at?-front zeros chunk (length chunk) refl (omega arith),
      )
      refl

bin_block-full :
    (chunk : List ℕ) (n : ℕ) (b : Block)
    → IsFull b n
    → length chunk + 16 ≡ n
    → bin_block false chunk n b ≡ some (record b { body = chunk })
unfolding bin_block
bin_block-full chunk n b full h =
    rw
      (
        bin_block,
        write_at?-front b.body chunk (length chunk) refl (omega (arith, full.body)),
        drop_all (length chunk) b.body (omega (arith, full.body)),
        append-nil chunk,
      )
      refl

module _ {W : Type 0} (os : Os W) (log : W → ℕ → List ℕ) (laws : SendLaws os log) where
  -- How the loop ends: with frames of its bytes dealt out, or with a broken client.
  abbrev pub BinPost : ℕ → Sys W → List ℕ → Bool → Sys W → Type 0
  BinPost room s bs true s' = (fs : List (List ℕ)) × FramesOf room bs fs × Dealt log s s' fs
  BinPost room s bs false s' = Broken s'.client

  after_last :
      (room sock : ℕ) (bs tail : List ℕ) (next : M W Bool) (s : Sys W)
      → length bs + length tail ≡ room
      → CanSend s.client
      → get_elem? s.client.connection.sockfd_send s.client.connection.i_socket_send ≡ some sock
      → (r : ℤ) (s' : Sys W) → SendPost log s sock (frame bs tail) r s'
      → Returns (after_bin_block os [] next r s') (BinPost room s bs)
  unfolding after_bin_block
  after_last room sock bs tail next s e can g (negsuc k) s' p = p.1
  after_last room sock bs tail next s e can g (pos k) s' p =
      last_frame os log laws room sock bs tail s s' e can g p.1

  BinPost-cons :
      (room : ℕ) (s s' : Sys W) (sock : ℕ) (bs chunk rest : List ℕ)
      → bs ≡ chunk ++ rest
      → get_elem? s.client.connection.sockfd_send s.client.connection.i_socket_send ≡ some sock
      → length chunk ≡ room
      → 0 < length rest
      → Sent log s s' sock (frame chunk [])
      → (r : Bool) (s'' : Sys W) → BinPost room s' rest r s''
      → BinPost room s bs r s''
  BinPost-cons room s s' sock bs chunk rest whole g l h d false s'' p = p
  BinPost-cons room s s' sock bs chunk rest whole g l h d true s'' (fs, fr, de) = (
    frame chunk [] ∷ fs,
    FramesOf.more chunk rest whole l h refl fr,
    Dealt-cons log s s' s'' sock (frame chunk []) fs g d de,
  )

  after_more :
      (room sock : ℕ) (bs chunk rest : List ℕ) (next : M W Bool) (s : Sys W)
      → bs ≡ chunk ++ rest
      → length chunk ≡ room
      → 0 < length rest
      → CanSend s.client
      → get_elem? s.client.connection.sockfd_send s.client.connection.i_socket_send ≡ some sock
      → ((s' : Sys W) → CanSend s'.client → Returns (next s') (BinPost room s' rest))
      → (r : ℤ) (s' : Sys W) → SendPost log s sock (frame chunk []) r s'
      → Returns (after_bin_block os rest next r s') (BinPost room s bs)
  unfolding after_bin_block
  after_more room sock bs chunk rest next s whole l h can g ih (negsuc k) s' p = p.1
  after_more room sock bs chunk rest next s whole l h can g ih (pos k) s' p =
      let z : ltb 0 (length rest) ≡ true = ground arith in
      rw (z, after_bin_block)
        (Returns-mono _ _ _ (ih s' (Sent-CanSend log s s' sock (frame chunk []) can p.1))
          (BinPost-cons room s s' sock bs chunk rest whole g l h p.1))

  -- A round on the last bytes, fewer than a block holds or as many
  bin_round_last :
      (fuel : ℕ) (bs tail : List ℕ) (n sock : ℕ) (next : M W Bool) (s : Sys W)
      → CanSend s.client
      → get_elem? s.client.connection.sockfd_send s.client.connection.i_socket_send ≡ some sock
      → length bs + length tail + 16 ≡ n
      → n < fuel
      → Returns
          ((send os fuel (some (frame bs tail)) n >>= after_bin_block os [] next) s)
          (BinPost (n - 16) s bs)
  bin_round_last fuel bs tail n sock next s can g e f =
      let whole : length (frame bs tail) ≡ n = omega (arith, length-frame bs tail) in
      Returns-bind (send os fuel (some (frame bs tail)) n) _ s (SendPost log s sock (frame bs tail))
        _ (rw whole at (send-SendPost os log laws fuel sock (frame bs tail) s can g (omega arith)))
        (after_last (n - 16) sock bs tail next s (omega arith) can g)

  pub bin_send_loop-frames :
      (fuel : ℕ) (bs : List ℕ) (n : ℕ) (b : Block) (s : Sys W)
      → CanSend s.client
      → IsBlockSize n
      → IsFull b n
      → 0 < length bs
      → n + length bs < fuel
      → Returns (bin_send_loop os fuel bs n b s) (BinPost (n - 16) s bs)
  unfolding bin_send_loop
  bin_send_loop-frames zero bs n b s can size full p f = absurd (omega arith)
  bin_send_loop-frames (suc fuel) bs n b s can size full p f =
      let room : ℕ = n - 16 in
      let (sock, g) =
        get_elem?-lt s.client.connection.sockfd_send s.client.connection.i_socket_send
          can.in_range in
      elim (Bool-cases (ltb (length bs) room)) [
        | inl last ↦
            let tail : List ℕ = drop (length bs) (replicate room 0) in
            let b' : Block = record b { word0 = length bs; body = bs ++ tail } in
            let fits : length bs + 16 ≤ n = ground (arith, size.0) in
            let nonempty : (length bs == 0) ≡ false = ground arith in
            rw
              (
                last,
                bin_send_loop,
                take_all (length bs) bs (omega arith),
                bin_block-last bs n b full fits,
                nonempty,
                block_bytes-frame bs tail b' refl full.kind refl,
                last,
                drop_all (length bs) bs (omega arith),
              )
              (bin_round_last fuel bs tail n sock _ s can g
                (omega (
                  arith,
                  length-drop (length bs) (replicate {A = ℕ} room 0),
                  length-replicate {A = ℕ} room 0,
                  size.0,
                ))
                (omega arith))
        | inr more ↦
            let chunk : List ℕ = take room bs in
            let le : room ≤ length bs = ground arith in
            let len : length chunk ≡ room = length-take room bs le in
            let b' : Block = record b { body = chunk } in
            let nonempty : (length chunk == 0) ≡ false = ground (arith, size.0) in
            let whole : length (frame chunk []) ≡ n =
              omega (arith, length-frame chunk [], size.0) in
            let left : length (drop room bs) ≡ length bs - room = length-drop room bs in
            rw
              (
                more,
                bin_send_loop,
                bin_block-full chunk n b full (omega (arith, size.0)),
                nonempty,
                block_bytes-frame chunk [] b' (omega (arith, full.size)) full.kind
                    (sym (append-nil chunk)),
                more,
              )
              (elim (Bool-cases (ltb 0 (length (drop room bs)))) [
                | inl some_left ↦
                    Returns-bind (send os fuel (some (frame chunk [])) n) _ s
                      (SendPost log s sock (frame chunk [])) _
                      (rw whole at (
                        send-SendPost os log laws fuel sock (frame chunk []) s can g (omega arith)))
                      (after_more room sock bs chunk (drop room bs) _ s
                        (sym (take-append-drop room bs)) len (ground arith) can g
                        (λ s' can'.
                          bin_send_loop-frames fuel (drop room bs) n b' s' can' size
                            (record {
                              size = full.size;
                              kind = full.kind;
                              body = omega (arith, size.0);
                            })
                            (ground arith) (omega (arith, size.0))))
                | inr none_left ↦
                    rw (drop_all room bs (ground arith), take_all room bs (ground arith))
                      (bin_round_last fuel bs [] n sock _ s can g (ground (arith, size.0))
                        (omega arith))
              ])
      ]
