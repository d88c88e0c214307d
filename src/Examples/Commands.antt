-- ===== src/Examples/Commands.antt =====
-- The theorems on the command line, on comparing and on the headers of chunks at concrete inputs.
use ossim_tcp_client.Prelude.{
  ℕ, ◌-◌, ◌≡◌, refl, List, [], ◌∷◌, some, Bool, true, false, ◌&&◌, ◌==◌, leb, if◌then◌else◌, pos,
  length, arith, inr,
}
use ossim_tcp_client.Protocol.{StatusInfo}
use ossim_tcp_client.Client.Monad.{done, stuck}
use ossim_tcp_client.Client.ReceiveChunks.{make_receive_chunks, receive_sync, new_receive_chunks}
use ossim_tcp_client.Client.ReceiveChunks.Header.{header_never_comes, header_refused}
use ossim_tcp_client.App.Names.{FileType, compare_hex_files}
use ossim_tcp_client.App.Names.Compare.{agree, compare_hex_files-agree}
use ossim_tcp_client.App.Main.{Options, Parsed, main}
use ossim_tcp_client.App.Main.Sockets.{Shareable, main-Shareable}
use ossim_tcp_client.App.Send.{HexStream, hex_send_loop}
use ossim_tcp_client.App.Send.Hex.{NotAll, Blocked, hex_send_loop-Blocked}
use ossim_tcp_client.Convertors.Hex.Words.{WordsOf}
use ossim_tcp_client.Examples.Hex.{read_hex, read_number, read_hex-Shortens}
use ossim_tcp_client.Examples.Loopback.{loop_os}
use ossim_tcp_client.Examples.Client.{sys, failed}

abbrev pub toupper : ℕ → ℕ
toupper c = if leb b'a' c && leb c b'z' then c - 32 else c

-- Sending of "stdin" as a bin file over 258 sockets
abbrev pub options : Options
options = record {
  cmd_send = true;
  cmd_convert = false;
  host = b'h' ∷ [];
  port = 12340;
  block_size = 4096;
  print = false;
  delay_receive = pos 0;
  delay_send = pos 0;
  n_sockets = pos 258;
  term = false;
  duplex = false;
  delay_after_connect = pos 0;
  time_out = pos 0;
  wait_connect = pos 0;
  data_file = some (b's' ∷ b't' ∷ b'd' ∷ b'i' ∷ b'n' ∷ []);
  type = some FileType.bin;
  ifile = [];
  itype = FileType.bin;
  ofile = [];
  otype = FileType.bin;
  tag = false;
}

main-Shareable_example : Shareable (main toupper (Parsed.parsed options)).1
main-Shareable_example = main-Shareable toupper (Parsed.parsed options)

-- "1\n2" and "1"
abbrev two_words : List ℕ
two_words = b'1' ∷ 10 ∷ b'2' ∷ []

abbrev one_word : List ℕ
one_word = b'1' ∷ []

two_words-WordsOf : WordsOf read_hex two_words (1 ∷ 2 ∷ [])
unfolding read_hex read_number
two_words-WordsOf =
    WordsOf.next (1, 10 ∷ b'2' ∷ []) refl (WordsOf.next (2, []) refl (WordsOf.stop refl))

one_word-WordsOf : WordsOf read_hex one_word (1 ∷ [])
unfolding read_hex read_number
one_word-WordsOf = WordsOf.next (1, []) refl (WordsOf.stop refl)

compare_hex_files-agree_example :
    compare_hex_files read_hex (some two_words) (some one_word) ≡ some (agree (1 ∷ 2 ∷ []) (1 ∷ []))
compare_hex_files-agree_example =
    compare_hex_files-agree read_hex two_words one_word (1 ∷ 2 ∷ []) (1 ∷ []) read_hex-Shortens
      two_words-WordsOf one_word-WordsOf

-- A hex file with a line that is no number
abbrev at_end : List ℕ → Bool
at_end s = length s == 0

abbrev bad_stream : HexStream
bad_stream = record { rest = b'x' ∷ 10 ∷ []; failed = false; eof = false }

bad_stream-Blocked : Blocked read_hex at_end bad_stream
unfolding read_hex read_number
bad_stream-Blocked = record { eof = refl; no_word = inr (refl, refl) }

hex_send_loop-Blocked_example :
    NotAll read_hex at_end (hex_send_loop read_hex at_end loop_os 50 bad_stream 32 sys)
hex_send_loop-Blocked_example =
    hex_send_loop-Blocked read_hex at_end loop_os 50 bad_stream 32 sys bad_stream-Blocked

header_never_comes_example :
    (make_receive_chunks loop_os 1000 sys ≡ stuck) × (receive_sync loop_os 1000 [] sys ≡ stuck)
header_never_comes_example = header_never_comes loop_os 1000 [] sys refl (omega arith)

header_refused_example :
    (make_receive_chunks loop_os 5 failed
      ≡ done (record new_receive_chunks { status = StatusInfo.error }) failed)
    × (receive_sync loop_os 5 [] failed ≡ done (pos 0, []) failed)
header_refused_example = header_refused loop_os 4 [] failed refl
