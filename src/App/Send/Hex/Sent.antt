-- ===== src/App/Send/Hex/Sent.antt =====
-- `sendHexFile` (src/tcpclientapp.cpp) puts out all words of its file, and the block of `send_terminate`
-- behind them for every socket.
use ossim_tcp_client.Prelude.{
  ℕ, zero, suc, ◌+◌, ◌-◌, ◌*◌, ◌/◌, ◌<◌, ◌≤◌, ◌≡◌, refl, sym, ◌∙◌, ap, subst, List, [], ◌∷◌, ◌++◌,
  Option, some, Bool, true, false, ℤ, pos, negsuc, length, replicate, arith, inl, inr, ◌⊎◌, is_neg,
  if◌then◌else◌, get_elem?, get_elem?-lt, length-append, append-nil,
}
use ossim_tcp_client.Frames.{frame}
use ossim_tcp_client.Protocol.{ConnectionInfo}
use ossim_tcp_client.Client.Os.{Os, SendLaws}
use ossim_tcp_client.Client.Monad.{Sys, M, Returns, Returns-bind, Returns-mono, ◌>>=◌, pure}
use ossim_tcp_client.Client.Send.{send, block_bytes, send_terminate, terminate_block}
use ossim_tcp_client.Client.Send.Stream.{Broken}
use ossim_tcp_client.Client.Send.Method.{CanSend, Sent, SendPost, send-SendPost}
use ossim_tcp_client.Client.Send.Blocks.{Dealt, Dealt-nil, Dealt-cons, Sent-CanSend}
use ossim_tcp_client.Client.Send.TcpIo.{IsBlockSize, new_block-IsFull}
use ossim_tcp_client.Client.Send.Terminate.{Dealt-append, EachPost, send_terminate-Dealt}
use ossim_tcp_client.Client.Receive.Frames.{length-terminate_block}
use ossim_tcp_client.Convertors.Hex.{hex_block, words_bytes}
use ossim_tcp_client.Convertors.Hex.Blocks.{hex_block-frame, length-hex_frame}
use ossim_tcp_client.App.Send.{HexStream, take_words, hex_send_loop, send_hex}
use ossim_tcp_client.App.Send.Hex.Words.{good, AllWords, take_words-TakePost}
use ossim_tcp_client.App.WordFrames.{WordFrames}

module _ {W : Type 0} (log : W → ℕ → List ℕ) where
  -- How the loop ends: with at most `k` frames of the words dealt out, or with a broken client.
  abbrev pub HexPost : ℕ → ℕ → Sys W → List ℕ → Bool → Sys W → Type 0
  HexPost n k s ws true s' =
      (fs : List (List ℕ)) × WordFrames n ws fs × (length fs ≤ k) × Dealt log s s' fs
  HexPost n k s ws false s' = Broken s'.client

  HexPost-cons :
      (n k k' : ℕ) (s s' : Sys W) (sock : ℕ) (vs tail ws : List ℕ)
      → length (frame (words_bytes vs) tail) ≡ n
      → get_elem? s.client.connection.sockfd_send s.client.connection.i_socket_send ≡ some sock
      → suc k ≤ k'
      → Sent log s s' sock (frame (words_bytes vs) tail)
      → (r : Bool) (s'' : Sys W) → HexPost n k s' ws r s''
      → HexPost n k' s (vs ++ ws) r s''
  HexPost-cons n k k' s s' sock vs tail ws l g le d false s'' broken = broken
  HexPost-cons n k k' s s' sock vs tail ws l g le d true s'' (fs, fr, few, de) = (
    frame (words_bytes vs) tail ∷ fs,
    WordFrames.frame_of vs tail l refl fr,
    omega arith,
    Dealt-cons log s s' s'' sock (frame (words_bytes vs) tail) fs g d de,
  )

  -- How `sendHexFile` ends: with a broken client, or with `true` after all words.
  abbrev pub WordsPost : ℕ → Sys W → List ℕ → List ℕ → Bool → Sys W → Type 0
  WordsPost n s ws block r s' =
      Broken s'.client
      ⊎ ((r ≡ true)
          × ((fs : List (List ℕ)) × WordFrames n ws fs
              × (length fs ≤ length ws + 1)
              × Dealt log s s' (fs ++ replicate (length s.client.connection.sockfd_send) block)))

module _ (extract : List ℕ → Option (ℕ × List ℕ)) (meets_end : List ℕ → Bool) {W : Type 0}
    (os : Os W) (log : W → ℕ → List ℕ) (laws : SendLaws os log) where
  -- What follows the `send` of a round
  after_words_block :
      (fuel n k k' sock : ℕ) (vs tail ws : List ℕ) (ifs : HexStream) (s : Sys W)
      → length (frame (words_bytes vs) tail) ≡ n
      → CanSend s.client
      → get_elem? s.client.connection.sockfd_send s.client.connection.i_socket_send ≡ some sock
      → suc k ≤ k'
      → ((s' : Sys W)
          → CanSend s'.client
          → Returns (hex_send_loop extract meets_end os fuel ifs n s') (HexPost log n k s' ws))
      → (r : ℤ) (s' : Sys W) → SendPost log s sock (frame (words_bytes vs) tail) r s'
      → let run : M W Bool = elim r [
        | negsuc e ↦ pure false
        | pos m ↦ hex_send_loop extract meets_end os fuel ifs n
      ] in
        Returns (run s') (HexPost log n k' s (vs ++ ws))
  after_words_block fuel n k k' sock vs tail ws ifs s l can g le next (negsuc e) s' p = p.1
  after_words_block fuel n k k' sock vs tail ws ifs s l can g le next (pos m) s' p =
      Returns-mono _ _ _
        (next s' (Sent-CanSend log s s' sock (frame (words_bytes vs) tail) can p.1))
        (HexPost-cons log n k k' s s' sock vs tail ws l g le p.1)

  -- One round, with what its words are and what the following ones do given
  hex_round :
      (fuel n k k' : ℕ) (vs ws : List ℕ) (ifs : HexStream) (s : Sys W)
      → CanSend s.client
      → IsBlockSize n
      → length vs ≤ n / 8 - 2
      → n < fuel
      → suc k ≤ k'
      → ((s' : Sys W)
          → CanSend s'.client
          → Returns (hex_send_loop extract meets_end os fuel ifs n s') (HexPost log n k s' ws))
      → Returns
          ((send os fuel (some (block_bytes (hex_block vs (n / 8 - 2) (n - 16)))) n >>= λ r.
              elim r [
                | negsuc e ↦ pure false
                | pos m ↦ hex_send_loop extract meets_end os fuel ifs n
              ])
            s)
          (HexPost log n k' s (vs ++ ws))
  hex_round fuel n k k' vs ws ifs s can size le f bound next =
      let tail : List ℕ = replicate (8 * (n / 8 - 2 - length vs)) 0 in
      let whole : length (frame (words_bytes vs) tail) ≡ n = length-hex_frame vs n size le in
      let (sock, g) =
        get_elem?-lt s.client.connection.sockfd_send s.client.connection.i_socket_send
          can.in_range in
      rw (hex_block-frame vs (n / 8 - 2) (n - 16) le (λ e. omega (arith, size.0, size.1))) (
        Returns-bind (send os fuel (some (frame (words_bytes vs) tail)) n) _ s
          (SendPost log s sock (frame (words_bytes vs) tail)) _
          (rw whole at (
            send-SendPost os log laws fuel sock (frame (words_bytes vs) tail) s can g
              (omega arith)))
          (after_words_block fuel n k k' sock vs tail ws ifs s whole can g bound next))

  hex_send_loop-eof :
      (fuel n : ℕ) (ifs : HexStream) (s : Sys W)
      → 0 < fuel
      → CanSend s.client
      → ifs.eof ≡ true
      → Returns (hex_send_loop extract meets_end os fuel ifs n s) (HexPost log n 0 s [])
  unfolding hex_send_loop
  hex_send_loop-eof zero n ifs s h can e = absurd (omega arith)
  hex_send_loop-eof (suc fuel) n ifs s h can e =
      rw (e, hex_send_loop) ([], WordFrames.no_frames, omega arith, Dealt-nil log s can)

  pub hex_send_loop-HexPost :
      (fuel n : ℕ) (rest ws : List ℕ) (s : Sys W)
      → CanSend s.client
      → IsBlockSize n
      → AllWords extract meets_end rest ws
      → n + length ws + 1 < fuel
      → Returns
          (hex_send_loop extract meets_end os fuel (good rest) n s)
          (HexPost log n (length ws + 1) s ws)
  unfolding hex_send_loop
  hex_send_loop-HexPost zero n rest ws s can size words f = absurd (omega arith)
  hex_send_loop-HexPost (suc fuel) n rest ws s can size words f =
      let r = take_words extract meets_end (n / 8 - 2) (good rest) in
      let goal : List ℕ → Type 0 = λ us.
        Returns (hex_send_loop extract meets_end os (suc fuel) (good rest) n s)
          (HexPost log n (length ws + 1) s us) in
      elim (take_words-TakePost extract meets_end (n / 8 - 2) rest ws words) [
        | inl (ended, same, le) ↦ subst goal (append-nil r.0 ∙ same) (
            hex_round fuel n 0 (length ws + 1) r.0 [] r.1 s can size (omega (arith, ap length same))
              (omega arith) (omega arith)
              (λ s' can'. hex_send_loop-eof fuel n r.1 s' (omega arith) can' ended))
        | inr (rest', left, same, len, going, more) ↦
            let total : length r.0 + length left ≡ length ws =
              sym (length-append r.0 left) ∙ ap length same in
            subst goal same (
              hex_round fuel n (length left + 1) (length ws + 1) r.0 left r.1 s can size
                (omega arith) (omega arith) (omega (arith, size.0))
                (λ s' can'. rw going (
                  hex_send_loop-HexPost fuel n rest' left s' can' size more
                    (omega (arith, size.0)))))
      ]

  with_terminate :
      (n : ℕ) (s s' : Sys W) (ws block : List ℕ) (fs : List (List ℕ))
      → WordFrames n ws fs
      → length fs ≤ length ws + 1
      → Dealt log s s' fs
      → (r : ℤ) (s'' : Sys W)
      → EachPost log s' block (length s'.client.connection.sockfd_send) 0 r s''
      → WordsPost log n s ws block (if is_neg r then false else true) s''
  with_terminate n s s' ws block fs fr few d r s'' (inl broken) = inl broken
  with_terminate n s s' ws block fs fr few d r s'' (inr (e, d')) = inr (
    rw e refl,
    (
      fs,
      fr,
      few,
      Dealt-append log s s' s'' fs _ d (
          subst (λ (socks : List ℕ). Dealt log s' s'' (replicate (length socks) block)) d.sockets
            d'),
    ),
  )

  after_hex :
      (fuel n : ℕ) (s : Sys W) (ws block : List ℕ)
      → s.client.connection_info.exit ≡ false
      → terminate_block s.client.connection_info.tcp_buf_size ≡ some block
      → length block < fuel
      → (all : Bool) (s' : Sys W) → HexPost log n (length ws + 1) s ws all s'
      → Returns
          ((if all
              then (send_terminate os fuel >>= λ bytes. pure (if is_neg bytes then false else true))
              else pure false)
            s')
          (WordsPost log n s ws block)
  after_hex fuel n s ws block e t f false s' broken = inl broken
  after_hex fuel n s ws block e t f true s' (fs, fr, few, d) =
      Returns-bind (send_terminate os fuel) _ s'
        (EachPost log s' block (length s'.client.connection.sockfd_send) 0) _
        (send_terminate-Dealt os log laws fuel block s' d.can_send
          (ap (λ (c : ConnectionInfo). c.exit) d.connection_info ∙ e)
          (ap (λ (c : ConnectionInfo). terminate_block c.tcp_buf_size) d.connection_info ∙ t) f)
        (with_terminate n s s' ws block fs fr few d)

  -- `sendHexFile`, on an open connection without the exit option and with a block size of whole words
  -- from 24 on, ends for every file whose words are all extracted before its end is met, with fuel above
  -- the block size and the number of words: it leaves a broken client, or it returns `true` and has dealt
  -- out, in turn, at most one frame more than there are words, which carry exactly the words, and behind
  -- them the block of `send_terminate` once for every socket.
  pub send_hex-WordsPost :
      (fuel : ℕ) (file ws block : List ℕ) (s : Sys W)
      → CanSend s.client
      → IsBlockSize s.client.connection_info.tcp_buf_size
      → s.client.connection_info.exit ≡ false
      → terminate_block s.client.connection_info.tcp_buf_size ≡ some block
      → AllWords extract meets_end file ws
      → s.client.connection_info.tcp_buf_size + length ws + 1 < fuel
      → Returns
          (send_hex extract meets_end os fuel file s)
          (WordsPost log s.client.connection_info.tcp_buf_size s ws block)
  unfolding send_hex
  send_hex-WordsPost fuel file ws block s can size e t words f =
      let n : ℕ = s.client.connection_info.tcp_buf_size in
      let (b, made, l) = new_block-IsFull n size in
      rw made (
        Returns-bind (hex_send_loop extract meets_end os fuel (good file) n) _ s
          (HexPost log n (length ws + 1) s ws) _
          (hex_send_loop-HexPost fuel n file ws s can size words f)
          (after_hex fuel n s ws block e t (omega (arith, length-terminate_block n block size t))))
