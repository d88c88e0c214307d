-- ===== src/Protocol/ControlTags.antt =====
-- namespace ControlTags (src/tcpclient.h): the words behind a service header.
use ossim_tcp_client.Prelude.{ℕ}

abbrev pub exit : ℕ
exit = 0x01

abbrev pub socketconfig : ℕ
socketconfig = 0x02

abbrev pub terminate : ℕ
terminate = 0xFFFFFFFFFF439EB2
