-- ===== src/Client/ReceiveChunks.antt =====
-- Receiving in chunks: class `ReceiveChunks` and `TCPClient::receive_sync` (src/tcpclient.h,
-- src/tcpclient.cpp), which both read a header of 16 bytes through `receive_need`. `tcpBufSize_` is
-- below 2 ^ 31, and a length that is cast to `int` may get negative.
pub mod Header
use ossim_tcp_client.Prelude.{
  ℕ, ◌+◌, ◌-◌, ◌*◌, ◌/◌, ◌%◌, ◌^◌, List, [], ◌++◌, Option, none, some, Bool, true, false, ℤ, pos,
  negsuc, is_neg, to_int, ◌==◌, ltb, if◌then◌else◌, length, take, replicate,
}
use ossim_tcp_client.Bytes.{word_at?}
use ossim_tcp_client.Protocol.{StatusInfo}
use ossim_tcp_client.Protocol.ControlTags
use ossim_tcp_client.Protocol.DataTypes
use ossim_tcp_client.Client.Os.{Os}
use ossim_tcp_client.Client.Monad.{stuck, fault, M, pure, ◌>>=◌, in_bounds, gets}
use ossim_tcp_client.Client.Base.{is_zero, get_error}
use ossim_tcp_client.Client.Receive.{receive_need, to_size}
use ossim_tcp_client.Client.Connect.{eq_ℤ}

pub record ReceiveChunks : Type 0 where
  pub data_size : ℕ
  pub need_bytes_recieve : ℕ
  pub status : StatusInfo

-- `needBytesRecieve_` is not set before a header has come; it is not read before either.
abbrev pub new_receive_chunks : ReceiveChunks
new_receive_chunks = record {
  data_size = 0;
  need_bytes_recieve = 0;
  status = StatusInfo.unsupport_tag;
}

-- `ReceiveChunks::getStatus` and `getDataSize`
unfoldable pub get_receive_status : ReceiveChunks → StatusInfo
get_receive_status rc = rc.status

unfoldable pub get_receive_size : ReceiveChunks → ℕ
get_receive_size rc = rc.data_size

-- `status_ == StatusInfo::DataProcessing` and `StatusInfo::AllData == status_`
unfoldable pub is_data_processing : StatusInfo → Bool
is_data_processing StatusInfo.data_processing = true
is_data_processing _ = false

unfoldable pub is_all_data : StatusInfo → Bool
is_all_data StatusInfo.all_data = true
is_all_data _ = false

abbrev with_status : StatusInfo → ReceiveChunks → ReceiveChunks
with_status status rc = record rc { status = status }

module _ {W : Type 0} (os : Os W) where
  -- `receive_need` of an `int` length: `receive` answers 0 to a negative one, and the loop goes on.
  unfoldable pub receive_need_int : ℕ → List ℕ → ℤ → M W (ℤ × List ℕ)
  unfolding get_error
  receive_need_int fuel mem (pos n) = receive_need os fuel (some mem) n
  receive_need_int fuel mem (negsuc e) =
      get_error os >>= λ error. if is_zero error then (λ s. stuck) else pure (negsuc 1, mem)

  -- `receive_header` on a service block: its third word
  unfoldable pub header_service : ℕ → ReceiveChunks → M W ReceiveChunks
  unfolding is_all_data
  header_service fuel rc = receive_need os fuel (some (replicate 8 0)) 8 >>= λ r.
      if is_neg r.0
      then pure (with_status StatusInfo.error rc)
      else in_bounds (word_at? r.1 0) >>= λ term. pure (
          if term == ControlTags.terminate
          then with_status
              (if is_all_data rc.status then StatusInfo.finish else StatusInfo.termination) rc
          else rc)

  -- `receive_header` on a padding block: its bytes are read and dropped.
  unfoldable pub header_padding : ℕ → ReceiveChunks → M W ReceiveChunks
  unfolding receive_need_int
  header_padding fuel rc =
      receive_need_int fuel (replicate rc.data_size 0) (to_int rc.data_size) >>= λ r. pure (
        with_status (if to_size r.0 == rc.data_size then StatusInfo.all_data else StatusInfo.error)
          rc)

  -- `ReceiveChunks::receive_header`
  unfoldable pub receive_header : ℕ → ReceiveChunks → M W ReceiveChunks
  unfolding header_service header_padding
  receive_header fuel rc = receive_need os fuel (some (replicate 16 0)) 16 >>= λ r.
      if eq_ℤ r.0 (pos 16)
      then (in_bounds (word_at? r.1 0) >>= λ size. in_bounds (word_at? r.1 1) >>= λ control_frame.
          let rc' : ReceiveChunks = record rc { data_size = size; need_bytes_recieve = size } in
          if control_frame == DataTypes.service
          then header_service fuel rc'
          else if control_frame == DataTypes.data_block
          then pure (with_status StatusInfo.data_processing rc')
          else if control_frame == DataTypes.padding
          then header_padding fuel rc'
          else pure (with_status StatusInfo.unsupport_tag rc'))
      else pure (with_status StatusInfo.error rc)

  -- `ReceiveChunks::ReceiveChunks`
  unfoldable pub make_receive_chunks : ℕ → M W ReceiveChunks
  unfolding receive_header
  make_receive_chunks fuel = receive_header fuel new_receive_chunks

  -- `receive_data_block` behind the last byte of the data: the rest of the block, the bytes up to a
  -- multiple of 8, and the next header
  unfoldable pub finish_data : ℕ → ReceiveChunks → M W ReceiveChunks
  unfolding receive_header
  finish_data fuel rc = gets (λ c. c.connection_info.tcp_buf_size) >>= λ buf_size.
      if buf_size == 0
      then (λ s. fault)
      else let padding = (rc.data_size + 16) % 2 ^ 64 % buf_size in
        (if ltb 0 padding
          then (receive_need os fuel (some (replicate (buf_size - padding) 0)) (buf_size - padding)
              >>= λ r. pure tt)
          else pure tt)
        >>= λ _.
            let bytes_for_pad8 = rc.data_size % 8 in
            if ltb 0 bytes_for_pad8
            then (receive_need os fuel (some (replicate (8 - bytes_for_pad8) 0))
                  (8 - bytes_for_pad8)
                >>= λ r.
                    if eq_ℤ r.0 (pos (8 - bytes_for_pad8))
                    then receive_header fuel rc
                    else pure (with_status StatusInfo.error rc))
            else receive_header fuel rc

  -- `ReceiveChunks::receive_data_block`: its result, the buffer and the object
  unfoldable pub receive_data_block :
      ℕ → ReceiveChunks → Option (List ℕ) → ℕ → M W (ℤ × List ℕ × ReceiveChunks)
  unfolding finish_data is_data_processing
  receive_data_block fuel rc mem? len =
      let len' = if ltb rc.need_bytes_recieve len then rc.need_bytes_recieve else len in
      if is_data_processing rc.status
      then (receive_need os fuel mem? len' >>= λ r. elim r.0 [
        | negsuc e ↦ pure (negsuc 0, r.1, with_status StatusInfo.error rc)
        | pos n ↦
            let rc' : ReceiveChunks = record rc {
              need_bytes_recieve = rc.need_bytes_recieve - n;
            } in
            if rc'.need_bytes_recieve == 0
            then (finish_data fuel (with_status StatusInfo.all_data rc') >>= λ rc''.
                pure (pos n, r.1, rc''))
            else pure (pos n, r.1, rc')
      ])
      else pure (pos 0, elim mem? [ none ↦ [] | some mem ↦ mem ], rc)

  -- `receive_sync` on a data block: `data` has its old size when the bytes are stored.
  unfoldable pub sync_data : ℕ → List ℕ → ℕ → M W (ℤ × List ℕ)
  unfolding receive_need_int
  sync_data fuel mem size =
      let pad = (size + 7) % 2 ^ 64 / 8 * 8 in
      receive_need_int fuel mem (to_int pad) >>= λ r. elim r.0 [
        | negsuc e ↦ pure (negsuc 0, r.1)
        | pos n ↦
            if ltb n size
            then pure (pos n, r.1)
            else pure (to_int size, take size r.1 ++ replicate (size - length r.1) 0)
      ]

  -- `TCPClient::receive_sync`
  unfoldable pub receive_sync : ℕ → List ℕ → M W (ℤ × List ℕ)
  unfolding sync_data
  receive_sync fuel mem = receive_need os fuel (some (replicate 16 0)) 16 >>= λ r.
      if is_neg r.0
      then pure (pos 0, mem)
      else if eq_ℤ r.0 (pos 16)
      then (in_bounds (word_at? r.1 0) >>= λ size. in_bounds (word_at? r.1 1) >>= λ control_frame.
          if control_frame == DataTypes.service
          then (receive_need os fuel (some (replicate 8 0)) 8 >>= λ t.
              pure (if is_neg t.0 then negsuc 0 else pos 0, mem))
          else if control_frame == DataTypes.data_block
          then sync_data fuel mem size
          else pure (negsuc 0, mem))
      else pure (pos 0, mem)
