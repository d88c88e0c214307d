-- ===== src/Client/Receive/Room.antt =====
-- `TCPClient::receive_tcp_io` (src/tcpclient.cpp) with a buffer that has no room for a whole block
-- behind the data.
use ossim_tcp_client.Prelude.{
  ℕ, zero, suc, ◌+◌, ◌-◌, ◌*◌, ◌/◌, ◌^◌, ◌<◌, ◌≤◌, ◌≡◌, refl, sym, ◌∙◌, ap, subst, List, [], ◌∷◌,
  ◌++◌, some, ℤ, pos, negsuc, length, drop, arith, append_assoc, ltb, Bool-cases, length-append,
  length-drop, get_elem?-lt, length-replicate, lt→ltb, inl, inr, ◌⊎◌,
}
use ossim_tcp_client.Client.Send.TcpIo.{IsBlockSize}
use ossim_tcp_client.Frames.{frame, FramesOf, length-frame}
use ossim_tcp_client.Protocol.{Connection}
use ossim_tcp_client.Client.Os.{Os, RecvLaws}
use ossim_tcp_client.Client.Monad.{M, Sys, Returns, Returns-bind}
use ossim_tcp_client.Client.Send.{terminate_block}
use ossim_tcp_client.Client.Send.Stream.{Broken}
use ossim_tcp_client.Client.Receive.{receive, tcp_io_loop, tcp_io_round, receive_tcp_io, new_buffer}
use ossim_tcp_client.Client.Receive.Method.{CanReceive}
use ossim_tcp_client.Client.Receive.Round.{round-data}
use ossim_tcp_client.Client.Receive.Next.{Next, NextPost, receive-NextPost}
use ossim_tcp_client.Client.Receive.Frames.{
  Incoming, IsSetUp, Next-IsSetUp, Next-Incoming, first_share, length-terminate_block,
}

module _ {W : Type 0} where
  -- The call ends with -2 and a client that has recorded no error, or with -1 and a broken one.
  abbrev pub NoRoom : ℤ × List ℕ → Sys W → Type 0
  NoRoom (r, mem) s = ((r ≡ negsuc 1) × CanReceive s.client) ⊎ ((r ≡ negsuc 0) × Broken s.client)

module _ {W : Type 0} (os : Os W) (inbox : W → ℕ → List ℕ) (laws : RecvLaws os inbox) where
  -- A block that the buffer's length leaves no room for
  full_round :
      (pdata bs : List ℕ) (len off : ℕ) (more : ℕ → List ℕ)
      (next : List ℕ → List ℕ → ℕ → M W (ℤ × List ℕ)) (s : Sys W)
      → len < off + length bs
      → (r : ℤ × List ℕ) (s' : Sys W) → NextPost inbox s bs more r s'
      → Returns (tcp_io_round os next pdata len off r s') NoRoom
  unfolding tcp_io_round
  full_round pdata bs len off more next s h (negsuc e, m) s' (p, b) = inr (ap negsuc p, b)
  full_round pdata bs len off more next s h (pos k, m) s' (p, q, d) =
      rw (lt→ltb len (off + k) (omega arith), tcp_io_round) (inl (refl, d.can_receive))

  -- A data frame that fits, with what the later rounds do given
  fitting_round :
      (got room chunk tail : List ℕ) (len off : ℕ) (more : ℕ → List ℕ)
      (next : List ℕ → List ℕ → ℕ → M W (ℤ × List ℕ)) (s : Sys W)
      → length got ≡ off
      → off + length (frame chunk tail) ≤ len
      → length chunk ≤ length room
      → off + length chunk < 2 ^ 64
      → ((s' : Sys W)
          → Next inbox s s' more
          → Returns
              (next
                (got ++ (chunk ++ drop (length chunk) room))
                (frame chunk tail)
                (off + length chunk)
                s')
              NoRoom)
      → (r : ℤ × List ℕ) (s' : Sys W) → NextPost inbox s (frame chunk tail) more r s'
      → Returns (tcp_io_round os next (got ++ room) len off r s') NoRoom
  fitting_round got room chunk tail len off more next s g o f i k (negsuc e, m) s' (p, b) =
      unfold tcp_io_round in inr (ap negsuc p, b)
  fitting_round got room chunk tail len off more next s g o f i k (pos n, m) s' (p, q, d) =
      rw (q, round-data os next got room chunk tail len off n s' g (omega arith) f i) (k s' d)

  -- A round of the loop, with what follows its `receive` given
  loop_round :
      (fuel : ℕ) (x pdata data_buf block : List ℕ) (fs : List (List ℕ)) (len n off : ℕ)
      (rest : ℕ → List ℕ) (s : Sys W)
      → IsSetUp s.client n block data_buf
      → Incoming inbox s (x ∷ fs) rest
      → length x ≡ n
      → n < fuel
      → ((more : ℕ → List ℕ)
          → ((s' : Sys W) → Next inbox s s' more → Incoming inbox s' fs rest)
          → (r : ℤ × List ℕ) (s' : Sys W) → NextPost inbox s x more r s'
          → Returns
              (tcp_io_round os
                (λ pdata' data_buf' read_bytes'.
                  tcp_io_loop os fuel pdata' len n data_buf' read_bytes')
                pdata
                len
                off
                r
                s')
              NoRoom)
      → Returns (tcp_io_loop os (suc fuel) pdata len n data_buf off s) NoRoom
  unfolding tcp_io_loop
  loop_round fuel x pdata data_buf block fs len n off rest s u h l f after =
      let c : Connection = s.client.connection in
      let (sock, e) = get_elem?-lt c.sockfd_rcv c.i_socket_rcv u.can_receive.in_range in
      Returns-bind (receive os fuel (some data_buf) n) _ s (NextPost inbox s x _) _
        (receive-NextPost os inbox laws fuel sock data_buf x _ n s u.can_receive e
          (first_share inbox s sock x fs rest e h) (l ∙ sym u.size) u.size (u.buffer ∙ sym l)
          (omega arith))
        (after _ (λ s' d. Next-Incoming inbox s s' fs rest d))

  -- A round on a data frame, with what the later rounds do given
  data_step :
      (fuel : ℕ) (got room chunk tail data_buf block : List ℕ) (fs : List (List ℕ)) (len n off : ℕ)
      (rest : ℕ → List ℕ) (s : Sys W)
      → IsSetUp s.client n block data_buf
      → Incoming inbox s (frame chunk tail ∷ fs) rest
      → length chunk + length tail + 16 ≡ n
      → length got ≡ off
      → len ≤ off + length room
      → len < 2 ^ 31
      → n < fuel
      → ((s' : Sys W)
          → off + n ≤ len
          → IsSetUp s'.client n block (frame chunk tail)
          → Incoming inbox s' fs rest
          → Returns
              (tcp_io_loop os fuel
                (got ++ (chunk ++ drop (length chunk) room))
                len
                n
                (frame chunk tail)
                (off + length chunk)
                s')
              NoRoom)
      → Returns (tcp_io_loop os (suc fuel) (got ++ room) len n data_buf off s) NoRoom
  data_step fuel got room chunk tail data_buf block fs len n off rest s u h l g r i f k =
      let size : length (frame chunk tail) ≡ n = omega (arith, length-frame chunk tail) in
      loop_round fuel (frame chunk tail) (got ++ room) data_buf block fs len n off rest s u h size f
        (λ more come. elim (Bool-cases (ltb len (off + n))) [
          | inl over ↦
              full_round (got ++ room) (frame chunk tail) len off more _ s (ground (arith, size))
          | inr fits ↦
              let room_left : off + n ≤ len = ground arith in
              fitting_round got room chunk tail len off more _ s g (omega (arith, size))
                (omega arith) (omega arith)
                (λ s' d.
                  k s' room_left
                    (Next-IsSetUp os inbox laws s s' n block data_buf (frame chunk tail) more u size
                      d)
                    (come s' d))
        ])

  -- The block that ends the stream, without room for it
  end_step :
      (fuel : ℕ) (pdata data_buf block : List ℕ) (len n off : ℕ) (rest : ℕ → List ℕ) (s : Sys W)
      → IsSetUp s.client n block data_buf
      → Incoming inbox s (block ∷ []) rest
      → len < off + n
      → n + 1 < fuel
      → Returns (tcp_io_loop os fuel pdata len n data_buf off s) NoRoom
  end_step zero pdata data_buf block len n off rest s u h o f = absurd (omega arith)
  end_step (suc fuel) pdata data_buf block len n off rest s u h o f =
      loop_round fuel block pdata data_buf block [] len n off rest s u h u.block_size (omega arith)
        (λ more _. full_round pdata block len off more _ s (omega (arith, u.block_size)))

  tcp_io_loop-NoRoom :
      (fuel : ℕ) {bs : List ℕ} {fs : List (List ℕ)} (got room data_buf block : List ℕ)
      (len n off : ℕ) (rest : ℕ → List ℕ) (s : Sys W)
      → FramesOf (n - 16) bs fs
      → IsSetUp s.client n block data_buf
      → Incoming inbox s (fs ++ (block ∷ [])) rest
      → length got ≡ off
      → len < off + length bs + n
      → len ≤ off + length room
      → len < 2 ^ 31
      → n + length fs + 2 < fuel
      → Returns (tcp_io_loop os fuel (got ++ room) len n data_buf off s) NoRoom
  tcp_io_loop-NoRoom zero got room data_buf block len n off rest s fr u h g o r i f =
      absurd (omega arith)
  tcp_io_loop-NoRoom (suc fuel) {bs} got room data_buf block len n off rest s
        (FramesOf.last tail e q) u h g o r i f =
      data_step fuel got room bs tail data_buf block (block ∷ []) len n off rest s u
        (subst (λ x. Incoming inbox s (x ∷ (block ∷ [])) rest) q h) (omega (arith, u.large)) g r i
        (omega arith)
        (λ s' fits u' h'.
          end_step fuel _ (frame bs tail) block len n (off + length bs) rest s' u' h' (omega arith)
            (omega arith))
  tcp_io_loop-NoRoom (suc fuel) {bs} got room data_buf block len n off rest s
        (FramesOf.more {fs = fs} chunk next whole e p q fr) u h g o r i f =
      let sizes : length bs ≡ length chunk + length next =
        ap length whole ∙ length-append chunk next in
      data_step fuel got room chunk [] data_buf block (fs ++ (block ∷ [])) len n off rest s u
        (subst (λ x. Incoming inbox s (x ∷ (fs ++ (block ∷ []))) rest) q h) (omega (arith, u.large))
        g r i (omega arith)
        (λ s' fits u' h'. rw (← append_assoc got chunk (drop (length chunk) room)) (
          tcp_io_loop-NoRoom fuel (got ++ chunk) (drop (length chunk) room) (frame chunk []) block
            len n (off + length chunk) rest s' fr u' h' (omega (arith, length-append got chunk))
            (omega (arith, sizes)) (omega (arith, length-drop (length chunk) room)) i
            (omega arith)))

  -- `receive_tcp_io` needs room for one block more than the data. On a client that can receive (no
  -- recorded error, a turn in range, fewer than 256 sockets) and with a block size of whole words
  -- from 24 on, when the frames of some data are to come, dealt out in turn and followed by the
  -- block of `send_terminate`, and the buffer, shorter than 2 ^ 31, is shorter than the data and
  -- one block more, it ends, with fuel above the block size and the number of frames, but never
  -- with the data: it answers -2 without an error recorded, or -1 and leaves a broken client.
  pub receive_tcp_io-NoRoom :
      (fuel : ℕ) {bs : List ℕ} {fs : List (List ℕ)} (pdata block : List ℕ) (rest : ℕ → List ℕ)
      (s : Sys W)
      → CanReceive s.client
      → IsBlockSize s.client.connection_info.tcp_buf_size
      → FramesOf (s.client.connection_info.tcp_buf_size - 16) bs fs
      → terminate_block s.client.connection_info.tcp_buf_size ≡ some block
      → Incoming inbox s (fs ++ (block ∷ [])) rest
      → length pdata < length bs + s.client.connection_info.tcp_buf_size
      → length pdata < 2 ^ 31
      → s.client.connection_info.tcp_buf_size + length fs + 2 < fuel
      → Returns (receive_tcp_io os fuel (some pdata) (length pdata) s) NoRoom
  unfolding receive_tcp_io
  receive_tcp_io-NoRoom fuel {bs} pdata block rest s can size fr t h room i f =
      let n : ℕ = s.client.connection_info.tcp_buf_size in
      tcp_io_loop-NoRoom fuel [] pdata (new_buffer n) block (length pdata) n 0 rest s fr
        (record {
          can_receive = can;
          size = refl;
          large = omega arith;
          ending = t;
          block_size = length-terminate_block n block size t;
          buffer = omega (arith, length-replicate {A = ℕ} (8 * (n / 8)) 0);
        })
        h refl (omega arith) (omega arith) i f
