-- ===== src/Client/Send/Blocks.antt =====
-- `TCPClient::send_to_tcp_io` produces the wire format: its data, cut into frames of one block each
-- and dealt out to the sockets in turn.
use ossim_tcp_client.Prelude.{
  ℕ, ◌+◌, ◌≤◌, ◌<◌, ◌≡◌, refl, sym, ◌∙◌, ap, subst, inl, inr, List, [], ◌∷◌, ◌++◌, some, ℤ, pos,
  negsuc, ◌==◌, length, get_elem?, take, drop, arith, append_assoc, append-nil, Bool-cases, le→leb,
  length-take, length-drop, eq_refl,
}
use ossim_tcp_client.Bytes.{read_at?}
use ossim_tcp_client.Bytes.Laws.{write_at?-front}
use ossim_tcp_client.Frames.{frame, FramesOf, share, dealt, turn_after, length-frame}
use ossim_tcp_client.Protocol.{Connection}
use ossim_tcp_client.Protocol.DataTypes
use ossim_tcp_client.Client.Os.{Os, SendLaws}
use ossim_tcp_client.Client.Monad.{Sys, Returns, Returns-bind}
use ossim_tcp_client.Client.Send.{Block, block_bytes, send_block, send, next_socket}
use ossim_tcp_client.Client.Send.Stream.{Broken}
use ossim_tcp_client.Client.Send.Method.{CanSend, Sent, SendPost, send-SendPost}

pub next_socket-lt : (i n : ℕ) → i < n → n < 256 → next_socket i n < n
next_socket-lt i n h k = ground arith

-- The turn stays in range, so a client that has sent a buffer can send the next one.
pub Sent-CanSend :
    {W : Type 0} (log : W → ℕ → List ℕ) (s s' : Sys W) (sock : ℕ) (bs : List ℕ)
    → CanSend s.client
    → Sent log s s' sock bs
    → CanSend s'.client
Sent-CanSend log s s' sock bs can d = record {
  no_error = rw d.last_error can.no_error;
  in_range = rw d.connection (next_socket-lt _ _ can.in_range can.few);
  few = rw d.connection can.few;
}

-- The bytes that a round of `send_to_tcp_io` reads
pub read_chunk :
    (bs : List ℕ) (off n : ℕ)
    → off + n ≤ length bs
    → read_at? bs off n ≡ some (take n (drop off bs))
unfolding read_at?
read_chunk bs off n h = rw (le→leb _ _ h)

pub length-chunk :
    (bs : List ℕ) (off n : ℕ) → off + n ≤ length bs → length (take n (drop off bs)) ≡ n
length-chunk bs off n h = length-take n (drop off bs) (omega (arith, length-drop off bs))

-- A block whose first word counts the chunk in front of its body is the chunk's frame.
pub block_bytes-frame :
    (chunk tail : List ℕ) (b : Block)
    → b.word0 ≡ length chunk
    → b.word1 ≡ DataTypes.data_block
    → b.body ≡ chunk ++ tail
    → block_bytes b ≡ frame chunk tail
unfolding block_bytes
block_bytes-frame chunk tail b p q r = rw (p, q, r)

module _ {W : Type 0} (os : Os W) (log : W → ℕ → List ℕ) (laws : SendLaws os log) where
  -- One round sends the frame of its chunk; the tail is what the block held before.
  pub send_block-SendPost :
      (fuel sock : ℕ) (data_in : List ℕ) (buf_size read_bytes n : ℕ) (b : Block) (s : Sys W)
      → CanSend s.client
      → get_elem? s.client.connection.sockfd_send s.client.connection.i_socket_send ≡ some sock
      → buf_size < fuel
      → read_bytes + n ≤ length data_in
      → n ≤ length b.body
      → length b.body + 16 ≡ buf_size
      → b.word0 ≡ n
      → b.word1 ≡ DataTypes.data_block
      → let chunk = take n (drop read_bytes data_in) in
        Returns (send_block os fuel data_in buf_size read_bytes b n s) (λ r s'.
          (r.1 ≡ record b { body = chunk ++ drop n b.body })
          × SendPost log s sock (frame chunk (drop n b.body)) r.0 s')
  unfolding send_block
  send_block-SendPost fuel sock data_in buf_size read_bytes n b s can e f hr hn hb p q =
      let chunk : List ℕ = take n (drop read_bytes data_in) in
      let l : length chunk ≡ n = length-chunk data_in read_bytes n hr in
      let b' : Block = record b { body = chunk ++ drop n b.body } in
      let framed : block_bytes b' ≡ frame chunk (drop n b.body) =
        block_bytes-frame chunk (drop n b.body) b' (p ∙ sym l) q refl in
      let size : length (frame chunk (drop n b.body)) ≡ buf_size =
        omega (arith, length-frame chunk (drop n b.body), length-drop n b.body) in
      rw (read_chunk data_in read_bytes n hr, write_at?-front b.body chunk n l hn)
        (Returns-bind (send os fuel (some (block_bytes b')) buf_size) _ s
          (SendPost log s sock (frame chunk (drop n b.body))) _
          (rw (framed, ← size)
            (send-SendPost os log laws fuel sock (frame chunk (drop n b.body)) s can e
              (omega arith)))
          (λ a s' h. (refl, h)))

module _ {W : Type 0} (log : W → ℕ → List ℕ) where
  -- Between `s` and `s'` the frames `fs` were dealt out in turn, and the client can go on sending.
  pub record Dealt (s s' : Sys W) (fs : List (List ℕ)) : Type 0 where
    pub logs :
        (u : ℕ)
        → log s'.world u
          ≡ log s.world u
            ++ dealt s.client.connection.sockfd_send s.client.connection.i_socket_send fs u
    pub can_send : CanSend s'.client
    pub sockets : s'.client.connection.sockfd_send ≡ s.client.connection.sockfd_send
    pub turn :
        s'.client.connection.i_socket_send
        ≡ turn_after fs s.client.connection.i_socket_send (length s.client.connection.sockfd_send)
    pub connection_info : s'.client.connection_info ≡ s.client.connection_info

  -- How `send_to_tcp_io` ends: with its length after the frames of its data, or with -1.
  abbrev pub BlocksPost : ℕ → Sys W → List ℕ → ℕ → ℤ → Sys W → Type 0
  BlocksPost room s bs total (pos n) s' =
      (n ≡ total) × ((fs : List (List ℕ)) × FramesOf room bs fs × Dealt s s' fs)
  BlocksPost room s bs total (negsuc e) s' = (e ≡ 0) × Broken s'.client

  Sent-share :
      (s s' : Sys W) (sock : ℕ) (f : List ℕ)
      → Sent log s s' sock f
      → (u : ℕ) → log s'.world u ≡ log s.world u ++ share (some sock) f u
  Sent-share s s' sock f d u = elim (Bool-cases (u == sock)) [
    | inl same ↦ let e : u ≡ sock = ground arith in rw (e, eq_refl sock) d.sent
    | inr other ↦ rw (other, append-nil) (d.others u (ground arith))
  ]

  pub Dealt-nil : (s : Sys W) → CanSend s.client → Dealt s s []
  Dealt-nil s can = record {
    logs = λ u. sym (append-nil _);
    can_send = can;
    sockets = refl;
    turn = refl;
    connection_info = refl;
  }

  pub Dealt-cons :
      (s s' s'' : Sys W) (sock : ℕ) (f : List ℕ) (fs : List (List ℕ))
      → get_elem? s.client.connection.sockfd_send s.client.connection.i_socket_send ≡ some sock
      → Sent log s s' sock f
      → Dealt s' s'' fs
      → Dealt s s'' (f ∷ fs)
  Dealt-cons s s' s'' sock f fs e d r = record {
    logs = λ u.
        rw (e, ← append_assoc, ← Sent-share s s' sock f d u)
          (subst
            (λ (c : Connection).
              log s''.world u ≡ log s'.world u ++ dealt c.sockfd_send c.i_socket_send fs u)
            d.connection (r.logs u));
    can_send = r.can_send;
    turn =
        subst
          (λ (c : Connection).
            s''.client.connection.i_socket_send
            ≡ turn_after fs c.i_socket_send (length c.sockfd_send))
          d.connection r.turn;
    sockets = r.sockets ∙ ap (λ (c : Connection). c.sockfd_send) d.connection;
    connection_info = r.connection_info ∙ d.connection_info;
  }

  pub BlocksPost-cons :
      (room : ℕ) (s s' : Sys W) (sock : ℕ) (bs chunk rest : List ℕ) (total : ℕ)
      → bs ≡ chunk ++ rest
      → get_elem? s.client.connection.sockfd_send s.client.connection.i_socket_send ≡ some sock
      → length chunk ≡ room
      → 0 < length rest
      → Sent log s s' sock (frame chunk [])
      → (r : ℤ) (s'' : Sys W) → BlocksPost room s' rest total r s''
      → BlocksPost room s bs total r s''
  BlocksPost-cons room s s' sock bs chunk rest total whole e l h d (negsuc k) s'' p = p
  BlocksPost-cons room s s' sock bs chunk rest total whole e l h d (pos n) s'' (k, (fs, fr, de)) = (
    k,
    (
      frame chunk [] ∷ fs,
      FramesOf.more chunk rest whole l h refl fr,
      Dealt-cons s s' s'' sock (frame chunk []) fs e d de,
    ),
  )
