-- ===== src/Examples/HexFiles.antt =====
-- The way of two words through a hex file: converted, sent and received.
use ossim_tcp_client.Prelude.{
  ◌+ℤ◌, ℕ, ◌≡◌, refl, List, [], ◌∷◌, some, none, Bool, true, false, ◌==◌, if◌then◌else◌, arith,
}
use ossim_tcp_client.Client.Monad.{Sys, done, Returns}
use ossim_tcp_client.Client.Base.{is_zero, get_error, sleep_ms}
use ossim_tcp_client.Client.Send.{
  send, send_loop, send_rest, send_finish, take_send_socket, send_each, send_terminate, new_block,
  block_bytes, terminate_block,
}
use ossim_tcp_client.Bytes.{read_at?, write_at?, u_int64_to_char8, le_bytes}
use ossim_tcp_client.Convertors.Hex.{hex_block}
use ossim_tcp_client.Convertors.Print.Lines.{AreWords, hex_lines}
use ossim_tcp_client.App.Send.{send_hex, hex_send_loop, take_words}
use ossim_tcp_client.App.Send.Hex.Words.{AllWords}
use ossim_tcp_client.App.Send.Hex.Sent.{WordsPost, send_hex-WordsPost}
use ossim_tcp_client.App.Receive.{Target, receive_to_hex}
use ossim_tcp_client.App.Linked.{Linked, Written}
use ossim_tcp_client.App.RoundTrip.Hex.{send_hex-receive_to_hex}
use ossim_tcp_client.Examples.Hex.{digit_value, read_number, read_hex, some_text}
use ossim_tcp_client.Examples.Loopback.{Streams, loop_os, stream, loop-SendLaws, loop-RecvLaws}
use ossim_tcp_client.Examples.Client.{
  ended, client, sys, can_send, can_receive, ending, terminate_block-ending,
}

-- `read_hex` comes to the end of the file where only digits are left.
abbrev only_digits : List ℕ → Bool
only_digits [] = true
only_digits (b ∷ s) = elim (digit_value b) [ none ↦ false | some d ↦ only_digits s ]

abbrev pub hex_ends : List ℕ → Bool
hex_ends [] = true
hex_ends (b ∷ s) = if b == 10 then only_digits s else only_digits (b ∷ s)

-- The words of `some_text`
abbrev text_words : List ℕ
text_words = 31 ∷ 2 ∷ []

text_words-AllWords : AllWords read_hex hex_ends some_text text_words
unfolding read_hex read_number
text_words-AllWords =
    AllWords.next_word (31, 10 ∷ b'2' ∷ []) refl refl (AllWords.last_word (2, []) refl refl)

text_words-AreWords : AreWords text_words
text_words-AreWords = AreWords.word (omega arith) (AreWords.word (omega arith) AreWords.no_words)

send_hex-WordsPost_example :
    Returns
      (send_hex read_hex hex_ends loop_os 99 some_text sys)
      (WordsPost stream 32 sys text_words ending)
send_hex-WordsPost_example =
    send_hex-WordsPost read_hex hex_ends loop_os stream loop-SendLaws 99 some_text text_words ending
      sys can_send (omega arith) refl terminate_block-ending text_words-AllWords (omega arith)

abbrev text_sent : Sys Streams
text_sent = ended (send_hex read_hex hex_ends loop_os 99 some_text sys)

sends_text :
    (send_hex read_hex hex_ends loop_os 99 some_text sys ≡ done true text_sent)
    × (is_zero text_sent.client.last_error ≡ true)
unfolding send_hex hex_send_loop take_words read_hex read_number hex_block send send_loop send_rest
    send_finish take_send_socket send_each send_terminate new_block block_bytes terminate_block
    sleep_ms get_error read_at? write_at? u_int64_to_char8 le_bytes ◌+ℤ◌
sends_text = (refl, refl)

abbrev text_peer : Sys Streams
text_peer = record { client = client; world = λ u. text_sent.world u }

text_sent-Linked : Linked stream stream sys text_sent text_peer
text_sent-Linked = record {
  quiet = λ u. refl;
  streams = λ u. refl;
  sockets = refl;
  turn = refl;
  size = refl;
}

send_hex-receive_to_hex_example :
    Returns
      (receive_to_hex loop_os 99 Target.created text_peer)
      (Written stream stream (hex_lines false text_words))
send_hex-receive_to_hex_example =
    send_hex-receive_to_hex read_hex hex_ends loop_os stream loop-SendLaws loop_os stream
      loop-RecvLaws 99 99 some_text text_words ending sys text_sent text_peer can_send (omega arith)
      (omega arith) refl terminate_block-ending text_words-AllWords text_words-AreWords
      (omega arith) sends_text.0 sends_text.1 can_receive text_sent-Linked (omega arith)
