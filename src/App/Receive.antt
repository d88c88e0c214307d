-- ===== src/App/Receive.antt =====
-- `TCPClientApp::receiveToBin`, `receiveToHex`, `receiveToDs8` and `receiveToData`
-- (src/tcpclientapp.cpp). The three that write a file share one loop: they receive a block, write what
-- the file wants of it, and end behind a terminating block or an error. Times and messages are left
-- out; an output file that was opened takes every write.
pub mod Blocks
pub mod Parts
pub mod Files
pub mod Hex
pub mod Words
pub mod Quick
pub mod Data
use ossim_tcp_client.Prelude.{
  ℕ, zero, suc, ◌+◌, ◌-◌, ◌*◌, ◌/◌, ◌%◌, ◌^◌, List, [], ◌∷◌, ◌++◌, Option, none, some, Bool, true,
  false, ℤ, pos, negsuc, ◌==◌, ltb, if◌then◌else◌, length, take, drop, replicate,
}
use ossim_tcp_client.Bytes.{word_at?, read_at?}
use ossim_tcp_client.Protocol.DataTypes
use ossim_tcp_client.Client.Os.{Os}
use ossim_tcp_client.Client.Monad.{M, stuck, pure, ◌>>=◌, in_bounds, gets}
use ossim_tcp_client.Client.Receive.{receive, receive_data, is_terminate_block, new_buffer}
use ossim_tcp_client.Convertors.Ds8.{write_header}
use ossim_tcp_client.Convertors.Print.{print_words}

-- The output file: no name is given, or it cannot be created, or it is open.
pub data Target : Type 0 where
  no_file refused created : Target

-- What a receiver has counted and written
pub record Reception : Type 0 where
  pub rcv_bytes : ℕ
  pub block_count : ℕ
  pub file : List ℕ

abbrev pub new_reception : List ℕ → Reception
new_reception file = record { rcv_bytes = 0; block_count = 0; file = file }

-- The test on a block that ends the loops
unfoldable pub ends_stream : List ℕ → Option Bool
unfolding is_terminate_block
ends_stream mem = elim (word_at? mem 1) [
  | none ↦ none
  | some word1 ↦ is_terminate_block word1 (word_at? mem 2) (word_at? mem 3)
]

-- What `receiveToBin` writes of a block: its data
unfoldable pub bin_part : Target → List ℕ → Option (List ℕ)
bin_part Target.created mem = elim (word_at? mem 1) [
  | none ↦ none
  | some word1 ↦
      if word1 == DataTypes.data_block
      then elim (word_at? mem 0) [ none ↦ none | some word0 ↦ read_at? mem 16 word0 ]
      else some []
]
bin_part _ mem = some []

-- What `receiveToHex` writes of a block: a line for each word of its data
unfoldable pub hex_part : Target → List ℕ → Option (List ℕ)
hex_part Target.created mem = elim (word_at? mem 1) [
  | none ↦ none
  | some word1 ↦
      if word1 == DataTypes.data_block
      then elim (word_at? mem 0) [
        | none ↦ none
        | some word0 ↦ print_words false mem 2 ((word0 + 7) % 2 ^ 64 / 8)
      ]
      else some []
]
hex_part _ mem = some []

-- What `receiveToDs8` writes of a block: all of it
unfoldable pub ds8_part : Target → ℕ → List ℕ → Option (List ℕ)
ds8_part Target.created buf_size mem = read_at? mem 0 buf_size
ds8_part _ buf_size mem = some []

module _ {W : Type 0} (os : Os W) where
  -- A round behind its `receive`; `part` is what is written, `next` the next round.
  unfoldable pub after_receive :
      (List ℕ → Option (List ℕ))
      → (List ℕ → Reception → M W Reception)
      → Reception
      → ℤ × List ℕ
      → M W Reception
  after_receive part next got (negsuc e, mem) = pure got
  after_receive part next got (pos n, mem) = in_bounds (part mem) >>= λ bs.
      in_bounds (ends_stream mem) >>= λ exit.
      let got' : Reception = record got {
        rcv_bytes = (got.rcv_bytes + n) % 2 ^ 64;
        file = got.file ++ bs;
      } in
      elim exit [
        | true ↦ pure got'
        | false ↦ next mem (record got' { block_count = (got.block_count + 1) % 2 ^ 64 })
      ]

  -- The loop; the vector `data` keeps its bytes from round to round.
  unfoldable pub receive_blocks :
      ℕ → (List ℕ → Option (List ℕ)) → ℕ → List ℕ → Reception → M W Reception
  receive_blocks zero part buf_size mem got = λ s. stuck
  receive_blocks (suc fuel) part buf_size mem got =
      receive os fuel (some mem) buf_size
      >>= after_receive part (λ mem' got'. receive_blocks fuel part buf_size mem' got') got

  -- `receiveToBin`: what it returns, and the file
  unfoldable pub receive_to_bin : ℕ → Target → M W (ℕ × List ℕ)
  receive_to_bin fuel Target.refused = pure (0, [])
  receive_to_bin fuel target = gets (λ c. c.connection_info.tcp_buf_size) >>= λ buf_size.
      receive_blocks fuel (bin_part target) buf_size (new_buffer buf_size) (new_reception [])
      >>= λ got. pure (got.rcv_bytes, got.file)

  -- `receiveToHex`
  unfoldable pub receive_to_hex : ℕ → Target → M W (ℕ × List ℕ)
  receive_to_hex fuel Target.refused = pure (0, [])
  receive_to_hex fuel target = gets (λ c. c.connection_info.tcp_buf_size) >>= λ buf_size.
      receive_blocks fuel (hex_part target) buf_size (new_buffer buf_size) (new_reception [])
      >>= λ got. pure (got.rcv_bytes, got.file)

  -- `receiveToDs8`
  abbrev pub ds8_start : Target → ℕ → List ℕ
  ds8_start Target.created buf_size = write_header buf_size
  ds8_start _ buf_size = []

  unfoldable pub receive_to_ds8 : ℕ → Target → M W (ℕ × List ℕ)
  receive_to_ds8 fuel Target.refused = pure (0, [])
  receive_to_ds8 fuel target = gets (λ c. c.connection_info.tcp_buf_size) >>= λ buf_size.
      receive_blocks fuel (ds8_part target buf_size) buf_size (new_buffer buf_size)
        (new_reception (ds8_start target buf_size))
      >>= λ got. pure (got.block_count, got.file)
