-- ===== src/Client/Receive/Frames.antt =====
-- `TCPClient::receive_tcp_io` gives back the data of the frames that it reads.
use ossim_tcp_client.Prelude.{
  ℕ, zero, suc, ◌+◌, ◌-◌, ◌*◌, ◌/◌, ◌^◌, ◌<◌, ◌≤◌, ◌≡◌, refl, sym, ◌∙◌, ap, subst, List, [], ◌∷◌,
  ◌++◌, some, true, ℤ, pos, negsuc, length, get_elem?, drop, replicate, arith, append_assoc,
  length-append, length-drop, drop-drop, get_elem?-lt, length-replicate, leb,
}
use mathlib.Core.Option.{some-injective}
use ossim_tcp_client.Bytes.{u_int64_to_char8}
use ossim_tcp_client.Bytes.Laws.{length-u_int64_to_char8}
use ossim_tcp_client.Protocol.ControlTags
use ossim_tcp_client.Protocol.DataTypes
use ossim_tcp_client.Client.Send.TcpIo.{IsBlockSize}
use ossim_tcp_client.Frames.{frame, FramesOf, share, dealt, length-frame}
use ossim_tcp_client.Protocol.{Connection}
use ossim_tcp_client.Client.Os.{Os, RecvLaws}
use ossim_tcp_client.Client.Monad.{Client, Sys, Returns, Returns-bind, Returns-mono}
use ossim_tcp_client.Client.Send.{terminate_block, next_socket}
use ossim_tcp_client.Client.Receive.{receive, tcp_io_loop, receive_tcp_io, new_buffer}
use ossim_tcp_client.Client.Receive.Method.{CanReceive}
use ossim_tcp_client.Client.Receive.Next.{Next, NextPost, receive-NextPost}
use ossim_tcp_client.Client.Receive.TcpIo.{TcpIoPost, terminate_round, data_round}

regroup :
    (got a b c room : List ℕ)
    → c ≡ a ++ b
    → (got ++ a) ++ (b ++ drop (length b) (drop (length a) room))
      ≡ got ++ (c ++ drop (length c) room)
regroup got a b c room e = rw (
  e,
  drop-drop (length a) (length b) (length (a ++ b)) room (sym (length-append a b)),
  append_assoc got a,
  append_assoc a b,
)

module _ {W : Type 0} (inbox : W → ℕ → List ℕ) where
  -- `fs` and then `rest` are still to come, dealt out from the socket whose turn it is.
  abbrev pub Incoming : Sys W → List (List ℕ) → (ℕ → List ℕ) → Type 0
  Incoming s fs rest =
      (u : ℕ)
      → inbox s.world u
        ≡ dealt s.client.connection.sockfd_rcv s.client.connection.i_socket_rcv fs u ++ rest u

  pub first_share :
      (s : Sys W) (sock : ℕ) (f : List ℕ) (fs : List (List ℕ)) (rest : ℕ → List ℕ)
      → get_elem? s.client.connection.sockfd_rcv s.client.connection.i_socket_rcv ≡ some sock
      → Incoming s (f ∷ fs) rest
      → (u : ℕ)
      → inbox s.world u
        ≡ share (some sock) f u
          ++ (dealt s.client.connection.sockfd_rcv
                (next_socket s.client.connection.i_socket_rcv
                  (length s.client.connection.sockfd_rcv))
                fs
                u
              ++ rest u)
  first_share s sock f fs rest e h u = h u ∙ rw (e, append_assoc)

  pub Next-Incoming :
      (s s' : Sys W) (fs : List (List ℕ)) (rest : ℕ → List ℕ)
      → Next inbox s s' (λ u.
        dealt s.client.connection.sockfd_rcv
          (next_socket s.client.connection.i_socket_rcv (length s.client.connection.sockfd_rcv))
          fs
          u
        ++ rest u)
      → Incoming s' fs rest
  Next-Incoming s s' fs rest d u =
      subst
        (λ (c : Connection). inbox s'.world u ≡ dealt c.sockfd_rcv c.i_socket_rcv fs u ++ rest u)
        (sym d.connection) (d.inboxes u)

TcpIoPost-cast :
    {W : Type 0} (inbox : W → ℕ → List ℕ) (a b : ℕ) (m m' : List ℕ) (rest : ℕ → List ℕ)
    (v : ℤ × List ℕ) (s : Sys W)
    → a ≡ b
    → m ≡ m'
    → TcpIoPost inbox a m rest v s
    → TcpIoPost inbox b m' rest v s
TcpIoPost-cast inbox a b m m' rest (pos k, x) s e f (p, q, r) = (p ∙ e, q ∙ f, r)
TcpIoPost-cast inbox a b m m' rest (negsuc k, x) s e f p = p

pub length-terminate_block :
    (n : ℕ) (block : List ℕ) → IsBlockSize n → terminate_block n ≡ some block → length block ≡ n
unfolding terminate_block
length-terminate_block n block (lo, whole) e =
    let long : leb 3 (n / 8) ≡ true = ground arith in
    let a : List ℕ = u_int64_to_char8 8 in
    let b : List ℕ = u_int64_to_char8 DataTypes.service in
    let c : List ℕ = u_int64_to_char8 ControlTags.terminate in
    let pad : List ℕ = replicate (8 * (n / 8) - 24) 0 in
    omega (
      arith,
      ap length (some-injective _ _ (rw long at e)),
      length-append a (b ++ (c ++ pad)),
      length-append b (c ++ pad),
      length-append c pad,
      length-u_int64_to_char8 8,
      length-u_int64_to_char8 DataTypes.service,
      length-u_int64_to_char8 ControlTags.terminate,
      length-replicate {A = ℕ} (8 * (n / 8) - 24) 0,
    )

-- What a call of the loop relies on: blocks of `n` bytes, of which `block` ends the stream.
pub record IsSetUp (c : Client) (n : ℕ) (block data_buf : List ℕ) : Type 0 where
  pub can_receive : CanReceive c
  pub size : c.connection_info.tcp_buf_size ≡ n
  pub large : 16 < n
  pub ending : terminate_block n ≡ some block
  pub block_size : length block ≡ n
  pub buffer : length data_buf ≡ n

module _ {W : Type 0} (os : Os W) (inbox : W → ℕ → List ℕ) (laws : RecvLaws os inbox) where
  pub Next-IsSetUp :
      (s s' : Sys W) (n : ℕ) (block data_buf data_buf' : List ℕ) (more : ℕ → List ℕ)
      → IsSetUp s.client n block data_buf
      → length data_buf' ≡ n
      → Next inbox s s' more
      → IsSetUp s'.client n block data_buf'
  Next-IsSetUp s s' n block data_buf data_buf' more u l d = record {
    can_receive = d.can_receive;
    size = rw d.connection_info u.size;
    large = u.large;
    ending = u.ending;
    block_size = u.block_size;
    buffer = l;
  }

  tcp_io_loop-end :
      (fuel : ℕ) (pdata data_buf block : List ℕ) (len n off : ℕ) (rest : ℕ → List ℕ) (s : Sys W)
      → IsSetUp s.client n block data_buf
      → Incoming inbox s (block ∷ []) rest
      → off + n ≤ len
      → len < 2 ^ 31
      → n + 1 < fuel
      → Returns (tcp_io_loop os fuel pdata len n data_buf off s) (TcpIoPost inbox off pdata rest)
  unfolding tcp_io_loop
  tcp_io_loop-end zero pdata data_buf block len n off rest s u h o i f = absurd (omega arith)
  tcp_io_loop-end (suc fuel) pdata data_buf block len n off rest s u h o i f =
      let c : Connection = s.client.connection in
      let (sock, g) = get_elem?-lt c.sockfd_rcv c.i_socket_rcv u.can_receive.in_range in
      Returns-bind (receive os fuel (some data_buf) n) _ s (NextPost inbox s block rest) _
        (receive-NextPost os inbox laws fuel sock data_buf block rest n s u.can_receive g
          (first_share inbox s sock block [] rest g h) (u.block_size ∙ sym u.size) u.size
          (u.buffer ∙ sym u.block_size) (omega arith))
        (terminate_round os inbox laws pdata block len off n rest _ s u.ending (omega arith) i)

  -- The step of the loop on a data frame, with what the later rounds do given.
  tcp_io_loop-data :
      (fuel : ℕ) (got room chunk tail data_buf block mem : List ℕ) (fs : List (List ℕ))
      (len n off total : ℕ) (rest : ℕ → List ℕ) (s : Sys W)
      → IsSetUp s.client n block data_buf
      → Incoming inbox s (frame chunk tail ∷ fs) rest
      → length chunk + length tail + 16 ≡ n
      → length got ≡ off
      → off + n ≤ len
      → len < 2 ^ 31
      → length chunk ≤ length room
      → n < fuel
      → ((s' : Sys W)
          → IsSetUp s'.client n block (frame chunk tail)
          → Incoming inbox s' fs rest
          → Returns
              (tcp_io_loop os fuel
                (got ++ (chunk ++ drop (length chunk) room))
                len
                n
                (frame chunk tail)
                (off + length chunk)
                s')
              (TcpIoPost inbox total mem rest))
      → Returns
          (tcp_io_loop os (suc fuel) (got ++ room) len n data_buf off s)
          (TcpIoPost inbox total mem rest)
  unfolding tcp_io_loop
  tcp_io_loop-data fuel got room chunk tail data_buf block mem fs len n off total rest s u h l g o i
        r f k =
      let c : Connection = s.client.connection in
      let (sock, e) = get_elem?-lt c.sockfd_rcv c.i_socket_rcv u.can_receive.in_range in
      let size : length (frame chunk tail) ≡ n = omega (arith, length-frame chunk tail) in
      Returns-bind (receive os fuel (some data_buf) n) _ s (NextPost inbox s (frame chunk tail) _) _
        (receive-NextPost os inbox laws fuel sock data_buf (frame chunk tail) _ n s u.can_receive e
          (first_share inbox s sock (frame chunk tail) fs rest e h) (size ∙ sym u.size) u.size
          (u.buffer ∙ sym size) (omega arith))
        (data_round os inbox laws got room chunk tail len off _ _ s total mem rest g (omega arith) r
          i (omega arith)
          (λ s' d.
            k s' (Next-IsSetUp s s' n block data_buf (frame chunk tail) _ u size d)
              (Next-Incoming inbox s s' fs rest d)))

  tcp_io_loop-frames :
      (fuel : ℕ) {bs : List ℕ} {fs : List (List ℕ)} (got room data_buf block : List ℕ)
      (len n off : ℕ) (rest : ℕ → List ℕ) (s : Sys W)
      → FramesOf (n - 16) bs fs
      → IsSetUp s.client n block data_buf
      → Incoming inbox s (fs ++ (block ∷ [])) rest
      → length got ≡ off
      → off + length bs + n ≤ len
      → len < 2 ^ 31
      → length bs ≤ length room
      → n + length fs + 2 < fuel
      → Returns
          (tcp_io_loop os fuel (got ++ room) len n data_buf off s)
          (TcpIoPost inbox (off + length bs) (got ++ (bs ++ drop (length bs) room)) rest)
  tcp_io_loop-frames zero got room data_buf block len n off rest s fr u h g o i r f =
      absurd (omega arith)
  tcp_io_loop-frames (suc fuel) {bs} got room data_buf block len n off rest s
        (FramesOf.last tail e q) u h g o i r f =
      tcp_io_loop-data fuel got room bs tail data_buf block _ (block ∷ []) len n off _ rest s u
        (subst (λ x. Incoming inbox s (x ∷ (block ∷ [])) rest) q h) (omega (arith, u.large)) g
        (omega arith) i r (omega arith)
        (λ s' u' h'.
          tcp_io_loop-end fuel _ _ block len n _ rest s' u' h' (omega arith) i (omega arith))
  tcp_io_loop-frames (suc fuel) {bs} got room data_buf block len n off rest s
        (FramesOf.more {fs = fs} chunk next whole e p q fr) u h g o i r f =
      let sizes : length bs ≡ length chunk + length next =
        ap length whole ∙ length-append chunk next in
      tcp_io_loop-data fuel got room chunk [] data_buf block _ (fs ++ (block ∷ [])) len n off _ rest
        s u (subst (λ x. Incoming inbox s (x ∷ (fs ++ (block ∷ []))) rest) q h)
        (omega (arith, u.large)) g (omega arith) i (omega arith) (omega arith)
        (λ s' u' h'. rw (← append_assoc got chunk (drop (length chunk) room)) (
          Returns-mono _ _ _
            (tcp_io_loop-frames fuel (got ++ chunk) (drop (length chunk) room) (frame chunk [])
              block len n (off + length chunk) rest s' fr u' h'
              (omega (arith, length-append got chunk)) (omega arith) i
              (omega (arith, length-drop (length chunk) room)) (omega arith))
            (λ v s''.
              TcpIoPost-cast inbox _ _ _ _ rest v s'' (omega arith)
                (regroup got chunk next bs room whole))))

  -- On a client that can receive (no recorded error, a turn in range, fewer than 256 sockets) and
  -- with a block size of whole words from 24 on, `receive_tcp_io` ends when the frames of some
  -- data are to come, dealt out in turn and followed by the block of `send_terminate`, and the
  -- buffer, shorter than 2 ^ 31, has room for the data and one block more, with fuel above the
  -- block size and the number of frames: it answers the number of data bytes with these bytes at
  -- the front of the buffer, and has read up to the end of that block; or it answers -1 and leaves
  -- a broken client.
  pub receive_tcp_io-frames :
      (fuel : ℕ) {bs : List ℕ} {fs : List (List ℕ)} (pdata block : List ℕ) (rest : ℕ → List ℕ)
      (s : Sys W)
      → CanReceive s.client
      → IsBlockSize s.client.connection_info.tcp_buf_size
      → FramesOf (s.client.connection_info.tcp_buf_size - 16) bs fs
      → terminate_block s.client.connection_info.tcp_buf_size ≡ some block
      → Incoming inbox s (fs ++ (block ∷ [])) rest
      → length bs + s.client.connection_info.tcp_buf_size ≤ length pdata
      → length pdata < 2 ^ 31
      → s.client.connection_info.tcp_buf_size + length fs + 2 < fuel
      → Returns
          (receive_tcp_io os fuel (some pdata) (length pdata) s)
          (TcpIoPost inbox (length bs) (bs ++ drop (length bs) pdata) rest)
  unfolding receive_tcp_io
  receive_tcp_io-frames fuel {bs} pdata block rest s can size fr t h room i f =
      let n : ℕ = s.client.connection_info.tcp_buf_size in
      Returns-mono _ _ _
        (tcp_io_loop-frames fuel [] pdata (new_buffer n) block (length pdata) n 0 rest s fr
          (record {
            can_receive = can;
            size = refl;
            large = omega arith;
            ending = t;
            block_size = length-terminate_block n block size t;
            buffer = omega (arith, length-replicate {A = ℕ} (8 * (n / 8)) 0);
          })
          h refl (omega arith) i (omega arith) (omega arith))
        (λ v s'. TcpIoPost-cast inbox _ _ _ _ rest v s' (omega arith) refl)
