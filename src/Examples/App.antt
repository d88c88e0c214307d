-- ===== src/Examples/App.antt =====
-- The theorems on the sending and receiving of files at concrete inputs: the client of
-- `Examples.Client`, and twenty bytes.
use ossim_tcp_client.Prelude.{
  false, replicate, ◌++◌, ℕ, ◌≡◌, refl, List, [], ◌∷◌, true, arith, sym, append-nil,
}
use ossim_tcp_client.Client.Monad.{Sys, done, Returns}
use ossim_tcp_client.Client.Send.{
  send, send_loop, send_rest, send_finish, take_send_socket, send_each, send_terminate, new_block,
  block_bytes, terminate_block, send_block, after_block, blocks_loop,
}
use ossim_tcp_client.Client.Base.{is_zero, sleep_ms, get_error}
use ossim_tcp_client.Bytes.{read_at?, write_at?, u_int64_to_char8, le_bytes}
use ossim_tcp_client.App.Send.{send_bin, bin_send_loop, bin_block, after_bin_block, send_data}
use ossim_tcp_client.App.Send.Data.{SentPost, send_bin-AllSent, send_data-AllSent}
use ossim_tcp_client.App.Receive.{Target, receive_to_bin, receive_to_ds8, receive_to_hex}
use ossim_tcp_client.App.Receive.Hex.{receive_to_hex-frames}
use ossim_tcp_client.Convertors.Print.Lines.{AreWords, hex_lines}
use ossim_tcp_client.Frames.{frame, FramesOf, dealt}
use ossim_tcp_client.App.Receive.Files.{
  FilePost, Ds8Post, receive_to_bin-frames, receive_to_ds8-frames,
}
use ossim_tcp_client.App.Linked.{Linked, Written}
use ossim_tcp_client.App.RoundTrip.{
  send_bin-receive_to_bin, send_data-receive_to_bin, send_data-receive_to_hex,
}
use ossim_tcp_client.Convertors.Hex.{words_bytes}
use ossim_tcp_client.Examples.Loopback.{Streams, loop_os, stream, loop-SendLaws, loop-RecvLaws}
use ossim_tcp_client.Examples.Client.{
  ended, client, sys, message, can_send, can_receive, ending, frames, arrived, frames-FramesOf,
  terminate_block-ending,
}

send_bin-AllSent_example :
    Returns (send_bin loop_os 99 message sys) (SentPost stream 16 sys message ending)
send_bin-AllSent_example =
    send_bin-AllSent loop_os stream loop-SendLaws 99 message ending sys can_send (omega arith) refl
      terminate_block-ending (omega arith) (omega arith)

send_data-AllSent_example :
    Returns
      (send_data loop_os 99 (1 ∷ 2 ∷ 3 ∷ []) sys)
      (SentPost stream 16 sys (words_bytes (1 ∷ 2 ∷ 3 ∷ [])) ending)
send_data-AllSent_example =
    send_data-AllSent loop_os stream loop-SendLaws 99 (1 ∷ 2 ∷ 3 ∷ []) ending sys can_send
      (omega arith) refl terminate_block-ending (omega arith)

receive_to_bin-frames_example :
    Returns
      (receive_to_bin loop_os 99 Target.created arrived)
      (FilePost stream 96 message (λ u. []))
unfolding u_int64_to_char8 le_bytes
receive_to_bin-frames_example =
    receive_to_bin-frames loop_os stream loop-RecvLaws 99 message frames ending (λ u. []) arrived
      can_receive (omega arith) (omega arith) frames-FramesOf terminate_block-ending
      (λ u. sym (append-nil _)) (omega arith)

receive_to_ds8-frames_example :
    Returns (receive_to_ds8 loop_os 99 Target.created arrived) (Ds8Post stream 2 message (λ u. []))
receive_to_ds8-frames_example =
    receive_to_ds8-frames loop_os stream loop-RecvLaws 99 message frames ending (λ u. []) arrived
      can_receive (omega arith) (omega arith) frames-FramesOf terminate_block-ending
      (λ u. sym (append-nil _)) (omega arith) (omega arith)

-- The client after it has sent the message, and a peer that finds it in its sockets
abbrev sent : Sys Streams
sent = ended (send_bin loop_os 99 message sys)

abbrev peer : Sys Streams
peer = record { client = client; world = λ u. sent.world u }

sends : (send_bin loop_os 99 message sys ≡ done true sent) × (is_zero sent.client.last_error ≡ true)
unfolding send_bin bin_send_loop bin_block after_bin_block send send_loop send_rest send_finish
    take_send_socket send_each send_terminate new_block block_bytes terminate_block sleep_ms
    get_error read_at? write_at? u_int64_to_char8 le_bytes
sends = (refl, refl)

sent-Linked : Linked stream stream sys sent peer
sent-Linked = record {
  quiet = λ u. refl;
  streams = λ u. refl;
  sockets = refl;
  turn = refl;
  size = refl;
}

send_bin-receive_to_bin_example :
    Returns (receive_to_bin loop_os 99 Target.created peer) (Written stream stream message)
send_bin-receive_to_bin_example =
    send_bin-receive_to_bin loop_os stream loop-SendLaws loop_os stream loop-RecvLaws 99 99 message
      ending sys sent peer can_send (omega arith) (omega arith) refl terminate_block-ending
      (omega arith) (omega arith) sends.0 sends.1 can_receive sent-Linked (omega arith)

-- Three words
abbrev words : List ℕ
words = 1 ∷ 2 ∷ 3 ∷ []

abbrev words_sent : Sys Streams
words_sent = ended (send_data loop_os 99 words sys)

sends_words :
    (send_data loop_os 99 words sys ≡ done true words_sent)
    × (is_zero words_sent.client.last_error ≡ true)
unfolding send_data blocks_loop send_block after_block send send_loop send_rest send_finish
    take_send_socket send_each send_terminate new_block block_bytes terminate_block sleep_ms
    get_error read_at? write_at? u_int64_to_char8 le_bytes
sends_words = (refl, refl)

abbrev words_peer : Sys Streams
words_peer = record { client = client; world = λ u. words_sent.world u }

words_sent-Linked : Linked stream stream sys words_sent words_peer
words_sent-Linked = record {
  quiet = λ u. refl;
  streams = λ u. refl;
  sockets = refl;
  turn = refl;
  size = refl;
}

send_data-receive_to_bin_example :
    Returns
      (receive_to_bin loop_os 99 Target.created words_peer)
      (Written stream stream (words_bytes words))
send_data-receive_to_bin_example =
    send_data-receive_to_bin loop_os stream loop-SendLaws loop_os stream loop-RecvLaws 99 99 words
      ending sys words_sent words_peer can_send (omega arith) (omega arith) refl
      terminate_block-ending (omega arith) sends_words.0 sends_words.1 can_receive words_sent-Linked
      (omega arith)

words-AreWords : AreWords words
words-AreWords =
    AreWords.word (omega arith)
      (AreWords.word (omega arith) (AreWords.word (omega arith) AreWords.no_words))

send_data-receive_to_hex_example :
    Returns
      (receive_to_hex loop_os 99 Target.created words_peer)
      (Written stream stream (hex_lines false words))
send_data-receive_to_hex_example =
    send_data-receive_to_hex loop_os stream loop-SendLaws loop_os stream loop-RecvLaws 99 99 words
      ending sys words_sent words_peer can_send (omega arith) (omega arith) refl
      terminate_block-ending words-AreWords (omega arith) sends_words.0 sends_words.1 can_receive
      words_sent-Linked (omega arith)

-- The two frames of the words and the block that ends the stream
abbrev word_frames : List (List ℕ)
word_frames =
    frame (words_bytes (1 ∷ 2 ∷ [])) [] ∷ frame (words_bytes (3 ∷ [])) (replicate 8 0) ∷ []

abbrev words_arrived : Sys Streams
words_arrived = record {
  client = client;
  world = dealt (5 ∷ 6 ∷ []) 0 (word_frames ++ (ending ∷ []));
}

word_frames-FramesOf : FramesOf 16 (words_bytes words) word_frames
unfolding u_int64_to_char8 le_bytes
word_frames-FramesOf =
    FramesOf.more (words_bytes (1 ∷ 2 ∷ [])) (words_bytes (3 ∷ [])) refl refl (omega arith) refl
      (FramesOf.last (replicate 8 0) refl refl)

receive_to_hex-frames_example :
    Returns
      (receive_to_hex loop_os 99 Target.created words_arrived)
      (FilePost stream 96 (hex_lines false words) (λ u. []))
unfolding u_int64_to_char8 le_bytes
receive_to_hex-frames_example =
    receive_to_hex-frames loop_os stream loop-RecvLaws 99 words word_frames ending (λ u. [])
      words_arrived can_receive (omega arith) (omega arith) words-AreWords word_frames-FramesOf
      terminate_block-ending (λ u. sym (append-nil _)) (omega arith)
