-- ===== src/Protocol/DataTypes.antt =====
-- namespace DataTypes (src/tcpclient.h): the second word of a block. `data` is a reserved word here,
-- so the first of the three is `data_block`.
use ossim_tcp_client.Prelude.{ℕ}

abbrev pub data_block : ℕ
data_block = 0x00

abbrev pub service : ℕ
service = 0x01

abbrev pub padding : ℕ
padding = 0x02
