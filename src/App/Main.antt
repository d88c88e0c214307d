-- ===== src/App/Main.antt =====
-- `main` of app/client-app/main.cpp behind the parser of the command line: what it checks, the
-- parameters of the connection that it makes of the options, and the call that it comes to. Ports are
-- not negative. A call is a value here; `run_send_exit_only` stands for `send_exit_only`, which is written out in `main`.
pub mod Sockets
use ossim_tcp_client.Prelude.{
  ℕ, ◌%◌, ◌^◌, List, [], ◌∷◌, Option, none, some, Bool, true, false, ◌&&◌, ◌||◌, not, ℤ, pos,
  negsuc, pos_part, ◌==◌, ltb, leb, if◌then◌else◌,
}
use ossim_tcp_client.Protocol.{ConnectionInfo, str_eq}
use ossim_tcp_client.Client.Os.{Os}
use ossim_tcp_client.Client.Monad.{M, pure, ◌>>=◌}
use ossim_tcp_client.Client.Send.{send_terminate_exit}
use ossim_tcp_client.Client.Connect.{init_connection, connect}
use ossim_tcp_client.App.Names.{
  FileType, type_eq, stdin_name, stdout_name, str_to_upper, std_in_out,
}

-- The values of the command line's options; `none` is an option that is not given.
pub record Options : Type 0 where
  pub cmd_send : Bool
  pub cmd_convert : Bool
  pub host : List ℕ
  pub port : ℕ
  pub block_size : ℕ
  pub print : Bool
  pub delay_receive : ℤ
  pub delay_send : ℤ
  pub n_sockets : ℤ
  pub term : Bool
  pub duplex : Bool
  pub delay_after_connect : ℤ
  pub time_out : ℤ
  pub wait_connect : ℤ
  pub data_file : Option (List ℕ)
  pub type : Option FileType
  pub ifile : List ℕ
  pub itype : FileType
  pub ofile : List ℕ
  pub otype : FileType
  pub tag : Bool

-- What the parser answers: the options, or an exception
pub data Parsed : Type 0 where
  parsed : Options → Parsed
  help parse_error validation_error : Parsed

-- What `main` calls, with the names of the files
pub data Action : Type 0 where
  nothing unsupported : Action
  run_send_bin_file run_send_hex_file run_send_ds8_file : ConnectionInfo → List ℕ → List ℕ → Action
  run_send_exit_only : ConnectionInfo → Bool → Action
  run_file_bin_to_hex run_file_ds8_to_hex : List ℕ → List ℕ → Bool → Action
  run_file_bin_to_ds8 run_file_hex_to_ds8 : List ℕ → List ℕ → ℕ → Action
  run_file_hex_to_bin run_file_ds8_to_bin : List ℕ → List ℕ → Action

-- `!duplex && nSockets.Get() > 1 && nSockets.Get() % 2`
unfoldable pub wrong_sockets : Options → Bool
wrong_sockets o =
    not o.duplex && ltb 1 (pos_part o.n_sockets) && not (pos_part o.n_sockets % 2 == 0)

-- `std::max<int>(1, nSockets.Get())`, as the `uint8_t` that it is stored in
unfoldable pub sockets_of : ℤ → ℕ
sockets_of n = (if ltb 1 (pos_part n) then pos_part n else 1) % 2 ^ 8

unfoldable pub connection_info : Options → ConnectionInfo
unfolding sockets_of
connection_info o = record {
  port = o.port;
  remote_address = o.host;
  tcp_buf_size = o.block_size;
  display_raw = o.print;
  delay_rcv_ms = o.delay_receive;
  delay_send_ms = o.delay_send;
  n_sockets = sockets_of o.n_sockets;
  exit = o.term;
  is_duplex_sockets = o.duplex || sockets_of o.n_sockets == 1;
  delay_after_connect = o.delay_after_connect;
  time_out = o.time_out;
  wait_connect = o.wait_connect;
}

-- The converter for a pair of types
unfoldable pub convert_action : FileType → FileType → Options → List ℕ → List ℕ → Action
convert_action FileType.bin FileType.hex o ifile ofile =
    Action.run_file_bin_to_hex ifile ofile o.tag
convert_action FileType.bin FileType.ds8 o ifile ofile =
    Action.run_file_bin_to_ds8 ifile ofile o.block_size
convert_action FileType.bin _ o ifile ofile = Action.unsupported
convert_action FileType.hex FileType.bin o ifile ofile = Action.run_file_hex_to_bin ifile ofile
convert_action FileType.hex FileType.ds8 o ifile ofile =
    Action.run_file_hex_to_ds8 ifile ofile o.block_size
convert_action FileType.hex _ o ifile ofile = Action.unsupported
convert_action FileType.ds8 FileType.bin o ifile ofile = Action.run_file_ds8_to_bin ifile ofile
convert_action FileType.ds8 FileType.hex o ifile ofile =
    Action.run_file_ds8_to_hex ifile ofile o.tag
convert_action FileType.ds8 _ o ifile ofile = Action.unsupported
convert_action FileType.mem _ o ifile ofile = Action.nothing

-- The call for a type. Without one, no name goes to `sendDS8File` for its output.
unfoldable pub send_by_type : Option FileType → ConnectionInfo → List ℕ → List ℕ → Action
send_by_type none info name out = Action.run_send_ds8_file info name []
send_by_type (some FileType.bin) info name out = Action.run_send_bin_file info name out
send_by_type (some FileType.hex) info name out = Action.run_send_hex_file info name out
send_by_type (some FileType.ds8) info name out = Action.run_send_ds8_file info name out
send_by_type (some FileType.mem) info name out = Action.run_send_ds8_file info name out

module _ (toupper : ℕ → ℕ) where
  -- The branch of `cmd_send`
  unfoldable pub send_action : Options → Action
  unfolding connection_info str_to_upper std_in_out send_by_type
  send_action o = elim o.data_file [
    | none ↦ Action.run_send_exit_only (connection_info o) o.term
    | some data_file ↦
        let out : List ℕ =
          if str_eq stdin_name (str_to_upper toupper data_file) then stdout_name else [] in
        let names : List ℕ × List ℕ = std_in_out toupper data_file out in
        send_by_type o.type (connection_info o) names.0 names.1
  ]

  -- `main` with what the parser answers: its result, and the call
  unfoldable pub main : Parsed → ℕ × Action
  unfolding wrong_sockets send_action convert_action
  main Parsed.help = (0, Action.nothing)
  main Parsed.parse_error = (2, Action.nothing)
  main Parsed.validation_error = (3, Action.nothing)
  main (Parsed.parsed o) =
      if wrong_sockets o
      then (3, Action.nothing)
      else if o.cmd_send
      then (0, send_action o)
      else if o.cmd_convert
      then (if type_eq o.itype o.otype
          then (3, Action.nothing)
          else let names : List ℕ × List ℕ = std_in_out toupper o.ifile o.ofile in
            (0, convert_action o.itype o.otype o names.0 names.1))
      else (0, Action.nothing)

-- `main` with nothing to send: connecting, and the exit command where it is asked for. The program
-- exits where the connection does not come about.
module _ {W : Type 0} (os : Os W) where
  unfoldable pub send_exit_only : ℕ → ConnectionInfo → Bool → M W (Unit {0})
  send_exit_only fuel info term = init_connection os info >>= λ ready.
      if ready
      then (connect os >>= λ connected.
          if connected && term then (send_terminate_exit os fuel >>= λ bytes. pure tt) else pure tt)
      else pure tt
