-- ===== src/App/Receive/Data.antt =====
-- `TCPClientApp::receiveToData` (src/tcpclientapp.cpp). The vector `dataOut` is the list of its bytes,
-- eight for each word; `rcvDataSize` counts words and stays below 2 ^ 31.
use ossim_tcp_client.Prelude.{
  ℕ, zero, suc, ◌+◌, ◌-◌, ◌*◌, ◌/◌, List, ◌++◌, some, Bool, true, false, ℤ, pos, negsuc, ltb, ◌==◌,
  if◌then◌else◌, length, take, drop, replicate,
}
use ossim_tcp_client.Client.Os.{Os}
use ossim_tcp_client.Client.Monad.{stuck, fault, M, pure, ◌>>=◌, gets}
use ossim_tcp_client.Client.Receive.{receive_data}

-- `dataOut.resize(count)`, in words
unfoldable pub resize_words : ℕ → List ℕ → List ℕ
resize_words count mem = take (8 * count) mem ++ replicate (8 * count - length mem) 0

module _ {W : Type 0} (os : Os W) where
  -- What follows the `receive_data` of a round: `mem` is the vector, `offset` is where `pDataChar`
  -- stands in it, and `next` is the next round.
  unfoldable pub after_data :
      (List ℕ → ℕ → ℕ → M W (ℕ × List ℕ)) → List ℕ → ℕ → ℕ → ℤ × Bool × List ℕ → M W (ℕ × List ℕ)
  unfolding resize_words
  after_data next mem offset rcv_data_size (negsuc e, is_terminate, out) =
      pure (0, take offset mem ++ out)
  after_data next mem offset rcv_data_size (pos bytes, is_terminate, out) =
      let mem' : List ℕ = take offset mem ++ out in
      let size : ℕ = rcv_data_size + (bytes + 7) / 8 in
      elim is_terminate [
        | true ↦ pure (8 * size, resize_words size mem')
        | false ↦ next mem' (offset + bytes) size
      ]

  -- The loop. Where the vector grows, `pDataChar` is set to the word number `rcvDataSize`.
  unfoldable pub data_loop : ℕ → List ℕ → ℕ → ℕ → ℕ → M W (ℕ × List ℕ)
  unfolding resize_words
  data_loop zero mem offset rcv_data_size buf_size = λ s. stuck
  data_loop (suc fuel) mem offset rcv_data_size buf_size =
      let need = rcv_data_size + buf_size / 8 in
      let grows = ltb (length mem / 8) need in
      let mem' : List ℕ = if grows then resize_words need mem else mem in
      let offset' : ℕ = if grows then 8 * rcv_data_size else offset in
      receive_data os (some (drop offset' mem')) buf_size false
      >>= after_data (λ mem'' offset'' size. data_loop fuel mem'' offset'' size buf_size) mem'
          offset' rcv_data_size

  -- `receiveToData`: its result, and the bytes of the vector
  unfoldable pub receive_to_data : ℕ → List ℕ → M W (ℕ × List ℕ)
  unfolding resize_words
  receive_to_data fuel data_out = gets (λ c. c.connection_info.tcp_buf_size) >>= λ buf_size.
      let mem : List ℕ =
        if ltb (length data_out) 8 then resize_words (buf_size / 8 * 10) data_out else data_out in
      if length mem == 0 then (λ s. fault) else data_loop fuel mem 0 0 buf_size
