-- ===== src/Protocol.antt =====
-- The constants and records of src/tcpclient.h: versions, control tags, data types, the state of a
-- connection, its parameters, and the status of a transfer.
pub mod ControlTags
pub mod DataTypes
use ossim_tcp_client.Prelude.{
  ℕ, ◌*◌, ◌/◌, ◌%◌, ◌^◌, Bool, true, false, not, ◌&&◌, ◌||◌, List, [], ◌∷◌, ℤ, pos, ◌==◌, leb,
}

-- namespace Version
abbrev pub g_min_version : ℕ
g_min_version = 0x01000001

abbrev pub g_version : ℕ
g_version = 0x01000001

pub data ConnectionState : Type 0 where
  undefined initialized connected disconnected : ConnectionState

-- `sockaddr_in`: the port is kept in host order.
pub record ServerAddress : Type 0 where
  pub sin_port : ℕ
  pub s_addr : ℕ

-- `server_` is never used by the source and is left out.
pub record Connection : Type 0 where
  pub sockfd : List ℕ
  pub sockfd_send : List ℕ
  pub sockfd_rcv : List ℕ
  pub state : ConnectionState
  pub server_addr : ServerAddress
  pub i_socket_send : ℕ
  pub i_socket_rcv : ℕ

pub record ConnectionInfo : Type 0 where
  pub port : ℕ
  pub remote_address : List ℕ
  pub tcp_buf_size : ℕ
  pub display_raw : Bool
  pub delay_rcv_ms : ℤ
  pub delay_send_ms : ℤ
  pub n_sockets : ℕ
  pub exit : Bool
  pub is_duplex_sockets : Bool
  pub delay_after_connect : ℤ
  pub time_out : ℤ
  pub wait_connect : ℤ

-- `Connection()` and `ConnectionInfo()`
abbrev pub new_connection : Connection
new_connection = record {
  sockfd = [];
  sockfd_send = [];
  sockfd_rcv = [];
  state = ConnectionState.undefined;
  server_addr = record { sin_port = 0; s_addr = 0 };
  i_socket_send = 0;
  i_socket_rcv = 0;
}

abbrev pub new_connection_info : ConnectionInfo
new_connection_info = record {
  port = 0;
  remote_address = [];
  tcp_buf_size = 128;
  display_raw = false;
  delay_rcv_ms = pos 0;
  delay_send_ms = pos 0;
  n_sockets = 1;
  exit = false;
  is_duplex_sockets = false;
  delay_after_connect = pos 0;
  time_out = pos 0;
  wait_connect = pos 0;
}

-- `==` on `std::string`
unfoldable pub str_eq : List ℕ → List ℕ → Bool
str_eq [] [] = true
str_eq (a ∷ s) (b ∷ t) = a == b && str_eq s t
str_eq _ _ = false

-- `ConnectionInfo::operator==` and `operator!=`
unfoldable pub info_eq : ConnectionInfo → ConnectionInfo → Bool
info_eq lhs rhs = lhs.port == rhs.port && str_eq lhs.remote_address rhs.remote_address

unfoldable pub info_ne : ConnectionInfo → ConnectionInfo → Bool
info_ne lhs rhs = not (lhs.port == rhs.port) || not (str_eq lhs.remote_address rhs.remote_address)

pub data StatusInfo : Type 0 where
  unsupport_tag error data_processing data_padding all_data termination finish : StatusInfo
