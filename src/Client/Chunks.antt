-- ===== src/Client/Chunks.antt =====
-- Sending in several chunks: the classes SendChunks and SendBlocks (src/tcpclient.h,
-- src/tcpclient.cpp). Lengths are not negative, as in `Send`; a method gives its value with the object
-- as it leaves it. `send_header` is virtual, so it is an argument of `send_data_block`.
pub mod Need
pub mod Pieces
pub mod Whole
use ossim_tcp_client.Prelude.{
  ℕ, ◌+◌, ◌-◌, ◌%◌, ◌^◌, List, ◌++◌, Option, some, Bool, true, false, ℤ, pos, negsuc, ◌+ℤ◌, ◌==◌,
  ltb, if◌then◌else◌, replicate,
}
use ossim_tcp_client.Bytes.{u_int64_to_char8}
use ossim_tcp_client.Protocol.{StatusInfo}
use ossim_tcp_client.Protocol.DataTypes
use ossim_tcp_client.Client.Os.{Os}
use ossim_tcp_client.Client.Monad.{M, pure, ◌>>=◌}
use ossim_tcp_client.Client.Base.{sub64}
use ossim_tcp_client.Client.Send.{send_need}

-- `bytesCount_` of SendBlocks is never used after its constructor and is left out.
pub record SendChunks : Type 0 where
  pub data_size : ℕ
  pub need_bytes_send : ℕ
  pub status : StatusInfo
  pub block_size : ℕ

-- `SendChunks::SendChunks`
abbrev pub new_send_chunks : ℕ → ℕ → SendChunks
new_send_chunks data_size block_size = record {
  data_size = data_size;
  need_bytes_send = data_size;
  status = StatusInfo.data_processing;
  block_size = block_size;
}

-- class SendBlocks: its base, and two fields of its own that nothing reads
pub record SendBlocks : Type 0 where
  pub base : SendChunks
  pub block_size : ℕ
  pub bytes_count : ℕ

-- `SendBlocks::SendBlocks`: the base keeps its default block size.
unfoldable pub new_send_blocks : ℕ → ℕ → SendBlocks
new_send_blocks data_size block_size = record {
  base = new_send_chunks data_size 128;
  block_size = block_size;
  bytes_count = 0;
}

-- `getStatus` and `getDataSize`
abbrev pub get_chunks_status : SendChunks → StatusInfo
get_chunks_status sc = sc.status

abbrev pub get_data_size : SendChunks → ℕ
get_data_size sc = sc.data_size

-- `status_ == StatusInfo::DataProcessing`
abbrev pub is_processing : StatusInfo → Bool
is_processing StatusInfo.data_processing = true
is_processing _ = false

-- The two words of a header
abbrev pub chunks_header : ℕ → List ℕ
chunks_header data_size = u_int64_to_char8 data_size ++ u_int64_to_char8 DataTypes.data_block

-- `header.size() == sent_bytes`
abbrev pub is_sixteen : ℤ → Bool
is_sixteen (pos n) = n == 16
is_sixteen (negsuc n) = false

abbrev pub header_status : ℤ → SendChunks → SendChunks
header_status r sc = record sc {
  status = if is_sixteen r then StatusInfo.data_processing else StatusInfo.error;
}

module _ {W : Type 0} (os : Os W) where
  -- `SendChunks::send_header`
  unfoldable pub send_header : ℕ → SendChunks → M W (ℤ × SendChunks)
  send_header fuel sc =
      send_need os fuel (some (chunks_header sc.data_size)) 16 >>= λ r. pure (r, header_status r sc)

  -- `SendBlocks::send_header`
  unfoldable pub send_block_header : ℕ → SendChunks → M W (ℤ × SendChunks)
  send_block_header fuel sc = send_need os fuel (some (chunks_header sc.data_size)) 16 >>= λ r.
      pure (if is_sixteen r then r else pos 0, header_status r sc)

  -- The end of `send_data_block` once all data is sent: zeros up to a multiple of 8 bytes
  unfoldable pub send_pad : ℕ → ℕ → SendChunks → M W (ℤ × SendChunks)
  send_pad fuel bytes_sent sc =
      let pad = 8 - sc.data_size % 8 in
      if ltb pad 8
      then (send_need os fuel (some (replicate pad 0)) pad >>= λ r. pure (pos bytes_sent +ℤ r, sc))
      else pure (pos bytes_sent, sc)

  -- What `send_data_block` makes of the result of its `send_need`
  unfoldable pub after_chunk : ℕ → SendChunks → ℤ → M W (ℤ × SendChunks)
  after_chunk fuel sc (negsuc e) = pure (negsuc 0, record sc { status = StatusInfo.error })
  after_chunk fuel sc (pos n) =
      let need = sub64 sc.need_bytes_send n in
      elim (need == 0) [
        | true ↦
            send_pad fuel n (record sc { need_bytes_send = need; status = StatusInfo.all_data })
        | false ↦ pure (pos n, record sc { need_bytes_send = need })
      ]

  -- The rest of `send_data_block` behind the header
  unfoldable pub send_chunk : ℕ → Option (List ℕ) → ℕ → SendChunks → M W (ℤ × SendChunks)
  send_chunk fuel data_in len sc = elim (is_processing sc.status) [
    | true ↦
        send_need os fuel data_in (if ltb sc.need_bytes_send len then sc.need_bytes_send else len)
        >>= after_chunk fuel sc
    | false ↦ pure (pos 0, sc)
  ]

  -- `SendChunks::send_data_block`
  unfoldable pub send_data_block :
      (ℕ → SendChunks → M W (ℤ × SendChunks))
      → ℕ
      → Option (List ℕ)
      → ℕ
      → SendChunks
      → M W (ℤ × SendChunks)
  send_data_block header fuel data_in len sc = elim (sc.need_bytes_send == sc.data_size) [
    | true ↦ header fuel sc >>= λ r. send_chunk fuel data_in len r.1
    | false ↦ send_chunk fuel data_in len sc
  ]
