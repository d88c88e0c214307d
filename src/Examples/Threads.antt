-- ===== src/Examples/Threads.antt =====
-- The independence of the two threads at a concrete input: the client of `Examples.Client` with other
-- fields.
use ossim_tcp_client.Prelude.{[], ◌∷◌}
use ossim_tcp_client.Client.Commutes.{Commutes}
use ossim_tcp_client.Client.Send.Independent.{ReceivingPart}
use ossim_tcp_client.Client.Receive.Independent.{SendingPart}

abbrev other_receiving : ReceivingPart
other_receiving = record {
  sockfd_rcv = 8 ∷ 9 ∷ [];
  i_socket_rcv = 1;
  bytes_received = 64;
  received_time = 5;
}

abbrev other_sending : SendingPart
other_sending = record {
  sockfd_send = 8 ∷ 9 ∷ [];
  i_socket_send = 1;
  bytes_sent = 64;
  sent_time = 5;
}
