-- ===== src/Examples/Stream.antt =====
-- The theorems on `ossimTcpStreamClient` at a concrete input: a system that has a socket for the second
-- of two addresses and counts its calls.
use ossim_tcp_client.Prelude.{
  ℕ, ◌+◌, ◌≡◌, [], ◌∷◌, some, true, false, ℤ, pos, negsuc, ◌==◌, if◌then◌else◌,
}
use ossim_tcp_client.StreamClient.{StreamClient, Strings, Net, new_stream_client, connect_to_server}
use ossim_tcp_client.StreamClient.Socket.{ConnectedPost, connect_to_server-ConnectedPost}

abbrev net : Net ℕ ℕ
net = record {
  close = λ sock w. (true, w + 1);
  getaddrinfo = λ host port w. (some (0 ∷ 4 ∷ []), w + 1);
  socket = λ info w. (if info == 0 then negsuc 0 else pos info, w + 1);
  connect = λ sock info w. (true, w + 1);
  open_image = λ path w. (true, w + 1);
}

abbrev strings : Strings
strings = record { contains = λ s t. false; before = λ s t. s; after = λ s t. [] }

abbrev answer : ℤ × StreamClient × ℕ
answer = connect_to_server net strings (b'h' ∷ []) (some (b'8' ∷ [])) new_stream_client 0

connect_to_server-ConnectedPost_example :
    (answer.0 ≡ answer.1.svrsockfd) × ConnectedPost net answer.1 answer.2
connect_to_server-ConnectedPost_example =
    connect_to_server-ConnectedPost net strings (b'h' ∷ []) (some (b'8' ∷ [])) new_stream_client 0
