-- ===== src/Client/Receive/Round.antt =====
-- One round of `TCPClient::receive_tcp_io`, on a data frame and on the block that ends the stream.
use ossim_tcp_client.Prelude.{
  ℕ, ◌+◌, ◌-◌, ◌*◌, ◌/◌, ◌%◌, ◌^◌, ◌≤◌, ◌<◌, ◌≡◌, List, ◌++◌, some, ℤ, pos, to_int, leb, length,
  drop, replicate, arith, le→ltb, Bool-cases, inl, inr, subst,
}
use ossim_tcp_client.Bytes.{u_int64_to_char8, word_at?}
use ossim_tcp_client.Bytes.Laws.{
  word_at?-append, word_at?-first, word_at?-third, write_at?-append, length-u_int64_to_char8,
}
use mathlib.Core.Option.{some-injective}
use ossim_tcp_client.Frames.{frame, frame-word0, frame-word1, frame-body}
use ossim_tcp_client.Protocol.ControlTags
use ossim_tcp_client.Protocol.DataTypes
use ossim_tcp_client.Client.Monad.{Sys, done, M}
use ossim_tcp_client.Client.Os.{Os}
use ossim_tcp_client.Client.Send.{terminate_block}
use ossim_tcp_client.Client.Receive.{tcp_io_round, copy_body, is_terminate_block}

copy_body-frame :
    (got room chunk tail : List ℕ) (n : ℕ)
    → length got ≡ n
    → length chunk ≤ length room
    → copy_body (got ++ room) (frame chunk tail) n (length chunk)
      ≡ some (got ++ (chunk ++ drop (length chunk) room))
unfolding copy_body
copy_body-frame got room chunk tail n e h =
    rw (frame-body chunk tail, copy_body) (write_at?-append got room chunk n e h)

terminate_words :
    (pad : List ℕ)
    → let block =
        u_int64_to_char8 8
        ++ (u_int64_to_char8 DataTypes.service
            ++ (u_int64_to_char8 ControlTags.terminate ++ pad)) in
      (word_at? block 0 ≡ some 8)
      × (word_at? block 1 ≡ some DataTypes.service)
      × (word_at? block 2 ≡ some ControlTags.terminate)
terminate_words pad = (
  word_at?-first 8 _ (omega arith),
  word_at?-append 1 DataTypes.service (u_int64_to_char8 8) _ (length-u_int64_to_char8 8)
      (omega arith),
  word_at?-third 8 DataTypes.service ControlTags.terminate pad (omega arith),
)

pub terminate_block-words :
    (buf_size : ℕ) (block : List ℕ)
    → terminate_block buf_size ≡ some block
    → (word_at? block 0 ≡ some 8)
      × (word_at? block 1 ≡ some DataTypes.service)
      × (word_at? block 2 ≡ some ControlTags.terminate)
unfolding terminate_block
terminate_block-words buf_size block e = elim (Bool-cases (leb 3 (buf_size / 8))) [
  | inl long ↦
      let all = replicate (8 * (buf_size / 8) - 24) 0 in
      subst
        (λ b.
          (word_at? b 0 ≡ some 8)
          × (word_at? b 1 ≡ some DataTypes.service)
          × (word_at? b 2 ≡ some ControlTags.terminate))
        (some-injective _ _ (rw long at e)) (terminate_words all)
  | inr short ↦ let z = (rw short at e) in cc
]

module _ {W : Type 0} (os : Os W) (next : List ℕ → List ℕ → ℕ → M W (ℤ × List ℕ)) where
  -- A data frame is copied behind what is there, and the loop goes on.
  pub round-data :
      (got room chunk tail : List ℕ) (len n k : ℕ) (s : Sys W)
      → length got ≡ n
      → n + k ≤ len
      → length chunk ≤ length room
      → n + length chunk < 2 ^ 64
      → tcp_io_round os next (got ++ room) len n (pos k, frame chunk tail) s
        ≡ next (got ++ (chunk ++ drop (length chunk) room)) (frame chunk tail) (n + length chunk) s
  unfolding tcp_io_round is_terminate_block
  round-data got room chunk tail len n k s e l h b =
      let z : (n + length chunk) % 2 ^ 64 ≡ n + length chunk = omega arith in
      rw (
        le→ltb len (n + k) l,
        tcp_io_round,
        frame-word0 chunk tail (omega arith),
        frame-word1 chunk tail,
        copy_body-frame got room chunk tail n e h,
        z,
      )

  -- The block of `send_terminate` ends the loop.
  pub round-terminate :
      (pdata block : List ℕ) (buf_size len n k : ℕ) (s : Sys W)
      → terminate_block buf_size ≡ some block
      → n + k ≤ len
      → tcp_io_round os next pdata len n (pos k, block) s ≡ done (to_int n, pdata) s
  unfolding tcp_io_round is_terminate_block
  round-terminate pdata block buf_size len n k s e l =
      let (p, q, r) = terminate_block-words buf_size block e in
      rw (le→ltb len (n + k) l, tcp_io_round, p, q, r)
