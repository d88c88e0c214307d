-- ===== src/App/Receive/Quick.antt =====
-- `receiveQuickData` (app/client-app/main.cpp), which no code calls: the blocks that come in are counted
-- and the words of their data are put behind each other. `dataOut` is the memory of its words.
use ossim_tcp_client.Prelude.{
  ℕ, zero, suc, ◌+◌, ◌*◌, ◌/◌, ◌%◌, ◌^◌, List, [], ◌++◌, Option, none, some, true, false, pos,
  negsuc, ◌==◌, if◌then◌else◌,
}
use ossim_tcp_client.Bytes.{word_at?, read_at?}
use ossim_tcp_client.Protocol.DataTypes
use ossim_tcp_client.Client.Os.{Os}
use ossim_tcp_client.Client.Monad.{M, stuck, pure, ◌>>=◌, in_bounds, gets}
use ossim_tcp_client.Client.Receive.{receive, new_buffer}
use ossim_tcp_client.App.Receive.{ends_stream}

-- What is inserted of a block: the words behind the header that its count of bytes touches
unfoldable pub quick_part : List ℕ → Option (List ℕ)
quick_part mem = elim (word_at? mem 1) [
  | none ↦ none
  | some word1 ↦
      if word1 == DataTypes.data_block
      then elim (word_at? mem 0) [
        | none ↦ none
        | some word0 ↦ read_at? mem 16 (8 * ((word0 + 7) % 2 ^ 64 / 8))
      ]
      else some []
]

module _ {W : Type 0} (os : Os W) where
  -- The loop: the number of blocks, and what was inserted
  unfoldable pub quick_loop : ℕ → ℕ → List ℕ → ℕ → List ℕ → M W (ℕ × List ℕ)
  unfolding quick_part ends_stream
  quick_loop zero buf_size mem i_block data_out = λ s. stuck
  quick_loop (suc fuel) buf_size mem i_block data_out = receive os fuel (some mem) buf_size >>= λ r.
      elim r.0 [
        | negsuc e ↦ pure (i_block, data_out)
        | pos n ↦ in_bounds (quick_part r.1) >>= λ words. in_bounds (ends_stream r.1) >>= λ exit.
            elim exit [
              | true ↦ pure ((i_block + 1) % 2 ^ 64, data_out ++ words)
              | false ↦ quick_loop fuel buf_size r.1 ((i_block + 1) % 2 ^ 64) (data_out ++ words)
            ]
      ]

  -- `receiveQuickData`
  unfoldable pub receive_quick_data : ℕ → List ℕ → M W (ℕ × List ℕ)
  unfolding quick_loop
  receive_quick_data fuel data_out = gets (λ c. c.connection_info.tcp_buf_size) >>= λ buf_size.
      quick_loop fuel buf_size (new_buffer buf_size) 0 data_out
