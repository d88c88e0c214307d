-- ===== src/App/Send.antt =====
-- `TCPClientApp::sendBinFile`, `sendHexFile`, `sendDS8File`, `sendData` and `send_exit`
-- (src/tcpclientapp.cpp), from the open connection on: what is read of a file goes out in blocks. The
-- receiver that the source starts beside them is a run of its own (`Receive`). Messages are left out.
pub mod Bin
pub mod Data
pub mod Hex
pub mod Ds8
use ossim_tcp_client.Prelude.{
  ℕ, zero, suc, ◌+◌, ◌-◌, ◌*◌, ◌/◌, ◌%◌, ◌^◌, List, [], ◌∷◌, ◌++◌, Option, none, some, Bool, true,
  false, ℤ, pos, negsuc, is_neg, to_int, ◌==◌, ◌||◌, ltb, if◌then◌else◌, length, take, drop,
  replicate, pos_part, neg_part,
}
use ossim_tcp_client.Bytes.{read_at?, write_at?}
use ossim_tcp_client.Protocol.{ConnectionInfo}
use ossim_tcp_client.Protocol.DataTypes
use ossim_tcp_client.Client.Os.{Os}
use ossim_tcp_client.Client.Monad.{Sys, stuck, fault, M, pure, ◌>>=◌, ◌>>◌, in_bounds, gets}
use ossim_tcp_client.Client.Base.{disconnect}
use ossim_tcp_client.Client.Send.{
  Block, new_block, block_bytes, send, blocks_loop, send_terminate, send_terminate_exit,
}
use ossim_tcp_client.Client.Receive.{receive}
use ossim_tcp_client.Client.Connect.{connect, init_connection, eq_ℤ}
use ossim_tcp_client.Convertors.Ds8.{ds8_block_size, header_size}
use ossim_tcp_client.Convertors.Hex.{hex_block, words_bytes}

-- A block of `sendBinFile` in which the bytes `chunk` were read: for the last bytes of a file, the count
-- is set and the room behind the header is cleared before.
unfoldable pub bin_block : Bool → List ℕ → ℕ → Block → Option Block
bin_block last chunk buf_size block =
    let cleared =
      if last then write_at? block.body 0 (replicate (buf_size - 16) 0) else some block.body in
    elim cleared [
      | none ↦ none
      | some body ↦ elim (write_at? body 0 chunk) [
        | none ↦ none
        | some body' ↦
            some (record block { word0 = if last then length chunk else block.word0; body = body' })
      ]
    ]

module _ {W : Type 0} (os : Os W) where
  -- What follows the `send` of a round: the next round while bytes are left
  unfoldable pub after_bin_block : List ℕ → M W Bool → ℤ → M W Bool
  after_bin_block left next (negsuc e) = pure false
  after_bin_block left next (pos n) = elim (ltb 0 (length left)) [ true ↦ next | false ↦ pure true ]

  -- The loop of `sendBinFile`, on what of the file is not read yet: whether `send_terminate` is reached
  unfoldable pub bin_send_loop : ℕ → List ℕ → ℕ → Block → M W Bool
  bin_send_loop zero rest buf_size block = λ s. stuck
  bin_send_loop (suc fuel) rest buf_size block =
      let last = ltb (length rest) (buf_size - 16) in
      let data_size = if last then length rest else buf_size - 16 in
      let chunk = take data_size rest in
      in_bounds (bin_block last chunk buf_size block) >>= λ block'. elim (length chunk == 0) [
        | true ↦ pure true
        | false ↦
            send os fuel (some (block_bytes block')) buf_size
            >>= after_bin_block (drop data_size rest)
                (bin_send_loop fuel (drop data_size rest) buf_size block')
      ]

  -- `sendBinFile` behind its `connect`: whether it reaches its end
  unfoldable pub send_bin : ℕ → List ℕ → M W Bool
  send_bin fuel file = do
    buf_size ← gets (λ c. c.connection_info.tcp_buf_size)
    block ← in_bounds (new_block buf_size)
    all ←
        bin_send_loop fuel file buf_size
          (record block { word0 = buf_size - 16; word1 = DataTypes.data_block })
    if all then (send_terminate os fuel >>= λ bytes. pure true) else pure false

  -- `sendData`: its loop is that of `send_to_tcp_io`, on the memory of the words.
  unfoldable pub send_data : ℕ → List ℕ → M W Bool
  send_data fuel data_in = do
    buf_size ← gets (λ c. c.connection_info.tcp_buf_size)
    block ← in_bounds (new_block buf_size)
    sent ←
        blocks_loop os fuel (words_bytes data_in) (8 * length data_in) buf_size
          (record block { word0 = buf_size - 16; word1 = DataTypes.data_block }) (buf_size - 16) 0
          (8 * length data_in)
    if is_neg sent then pure false else (send_terminate os fuel >>= λ bytes. pure true)

  -- The loop of `sendDS8File` over the blocks of a file
  unfoldable pub ds8_send_loop : ℕ → ℕ → List ℕ → ℕ → M W (Unit {0})
  ds8_send_loop fuel zero blocks buf_size = pure tt
  ds8_send_loop fuel (suc count) blocks buf_size =
      send os fuel (some (take buf_size blocks)) buf_size >>= λ bytes_sent. elim bytes_sent [
        | negsuc e ↦ pure tt
        | pos n ↦ ds8_send_loop fuel count (drop buf_size blocks) buf_size
      ]

  -- `sendDS8File`: whether the loop is reached
  unfoldable pub send_ds8_file : ℕ → ConnectionInfo → Option (List ℕ) → M W Bool
  send_ds8_file fuel info none = pure false
  send_ds8_file fuel info (some file) = in_bounds (ds8_block_size file) >>= λ size?. elim size? [
    | none ↦ pure false
    | some buf_size ↦ init_connection os (record info { tcp_buf_size = buf_size }) >>= λ ready.
        if ready
        then (connect os >>= λ connected.
            if connected
            then (ds8_send_loop fuel ((length file - header_size) / buf_size)
                  (drop header_size file) buf_size
                >>= λ _. pure true)
            else pure false)
        else pure false
  ]

  -- `sendBinFile`
  unfoldable pub send_bin_file : ℕ → ConnectionInfo → Option (List ℕ) → M W Bool
  send_bin_file fuel info none = pure false
  send_bin_file fuel info (some file) = init_connection os info >>= λ ready.
      if ready
      then (connect os >>= λ connected. if connected then send_bin fuel file else pure false)
      else pure false

  -- `send_exit`: the value that it returns
  unfoldable pub send_exit : ℕ → M W ℤ
  send_exit fuel = do
    _ ← disconnect os
    _ ← connect os
    block_size ← gets (λ c. c.connection_info.tcp_buf_size)
    sockets ← gets (λ c. c.connection_info.n_sockets)
    sent ← send_terminate_exit os fuel
    if eq_ℤ (to_int (block_size * sockets)) sent
        then (receive os fuel (some (replicate block_size 0)) block_size >>= λ r. pure r.0)
        else pure (pos 0)

-- What the loop of `sendHexFile` keeps of its input stream: the rest of the file, whether an extraction
-- has failed, and whether one has met the end of the file
pub record HexStream : Type 0 where
  pub rest : List ℕ
  pub failed : Bool
  pub eof : Bool

-- `extract` is `ifs >> std::hex` into a `uint64_t`, and `meets_end` whether it comes to the end of the file.
module _ (extract : List ℕ → Option (ℕ × List ℕ)) (meets_end : List ℕ → Bool) where
  -- The inner loop: at most `count` words. A stream that has failed or has met
  -- its end gives no more.
  unfoldable pub take_words : ℕ → HexStream → List ℕ × HexStream
  take_words zero ifs = ([], ifs)
  take_words (suc count) ifs = elim (ifs.failed || ifs.eof) [
    | true ↦ ([], record ifs { failed = true })
    | false ↦ elim (extract ifs.rest) [
      | none ↦ ([], record ifs { failed = true; eof = meets_end ifs.rest })
      | some p ↦
          let r =
            take_words count (record { rest = p.1; failed = false; eof = meets_end ifs.rest }) in
          (p.0 ∷ r.0, r.1)
    ]
  ]

  module _ {W : Type 0} (os : Os W) where
    -- The loop of `sendHexFile`: whether `send_terminate` is reached
    unfoldable pub hex_send_loop : ℕ → HexStream → ℕ → M W Bool
    hex_send_loop zero ifs buf_size = λ s. stuck
    hex_send_loop (suc fuel) ifs buf_size = elim ifs.eof [
      | true ↦ pure true
      | false ↦
          let r = take_words (buf_size / 8 - 2) ifs in
          send os fuel (some (block_bytes (hex_block r.0 (buf_size / 8 - 2) (buf_size - 16))))
            buf_size
          >>= λ bytes_sent. elim bytes_sent [
            | negsuc e ↦ pure false
            | pos n ↦ hex_send_loop fuel r.1 buf_size
          ]
    ]

    -- `sendHexFile` behind its `connect`: whether it reaches its end
    unfoldable pub send_hex : ℕ → List ℕ → M W Bool
    send_hex fuel file = gets (λ c. c.connection_info.tcp_buf_size) >>= λ buf_size.
        in_bounds (new_block buf_size) >>= λ block.
        hex_send_loop fuel (record { rest = file; failed = false; eof = false }) buf_size >>= λ all.
        if all
        then (send_terminate os fuel >>= λ bytes. pure (if is_neg bytes then false else true))
        else pure false

    -- `sendHexFile`
    unfoldable pub send_hex_file : ℕ → ConnectionInfo → Option (List ℕ) → M W Bool
    send_hex_file fuel info none = pure false
    send_hex_file fuel info (some file) = init_connection os info >>= λ ready.
        if ready
        then (connect os >>= λ connected. if connected then send_hex fuel file else pure false)
        else pure false
