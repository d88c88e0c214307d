-- ===== src/App/Independent.antt =====
-- The thread that sends a file and the one that receives its answer (src/tcpclientapp.cpp), on the same
-- client, behind its `connect`: the list of sockets, the turn and the counters of one direction are of no
-- use to the other. Both may record an error, which changes the state and closes the sockets.
pub mod Sending
pub mod Receiving
use ossim_tcp_client.Client.Os.{Os}
use ossim_tcp_client.Client.Commutes.{Commutes}
