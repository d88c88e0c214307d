-- ===== src/Examples/StdStreams.antt =====
-- Two words on the standard input, converted to a ds8 file on the standard output and from there to hex.
use ossim_tcp_client.Prelude.{
  ℕ, ◌++◌, ◌≡◌, refl, List, [], ◌∷◌, none, some, Bool, true, false, arith,
}
use ossim_tcp_client.Protocol.{str_eq}
use ossim_tcp_client.Convertors.Hex.{words_bytes}
use ossim_tcp_client.Convertors.Print.{file_bin_to_hex}
use ossim_tcp_client.App.Names.{FileType, str_to_upper}
use ossim_tcp_client.App.Main.{Options}
use ossim_tcp_client.App.StdInOut.{Process}
use ossim_tcp_client.App.Convert.{run_convert}
use ossim_tcp_client.App.Convert.Pipeline.{IsFilter, run_convert-run_convert}
use ossim_tcp_client.Examples.Commands.{toupper, options}
use ossim_tcp_client.Examples.Hex.{read_hex, some_words, some_words-AreWords}

abbrev any_name : List ℕ → Bool
any_name name = true

-- From "stdin" to "StdOut"
abbrev to_ds8_options : Options
to_ds8_options = record options {
  cmd_send = false;
  cmd_convert = true;
  block_size = 32;
  ifile = b's' ∷ b't' ∷ b'd' ∷ b'i' ∷ b'n' ∷ [];
  ofile = b'S' ∷ b't' ∷ b'd' ∷ b'O' ∷ b'u' ∷ b't' ∷ [];
  itype = FileType.bin;
  otype = FileType.ds8;
}

abbrev to_hex_options : Options
to_hex_options = record to_ds8_options { itype = FileType.ds8; otype = FileType.hex }

to_ds8-IsFilter : IsFilter toupper FileType.bin FileType.ds8 to_ds8_options
unfolding str_eq str_to_upper
to_ds8-IsFilter = record { input = refl; output = refl; from = refl; to = refl }

to_hex-IsFilter : IsFilter toupper FileType.ds8 FileType.hex to_hex_options
unfolding str_eq str_to_upper
to_hex-IsFilter = record { input = refl; output = refl; from = refl; to = refl }

abbrev process : Process
process = record {
  files = λ name. none;
  stdin = words_bytes some_words;
  stdout = [];
  redirected = false;
}

run_convert-run_convert_example :
    (p' : Process) × (q' : Process) × (text : List ℕ) × (run_convert read_hex any_name toupper
        to_ds8_options process
      ≡ some p')
    × (run_convert read_hex any_name toupper to_hex_options (record process { stdin = p'.stdout })
        ≡ some q')
    × (file_bin_to_hex (some (words_bytes some_words)) true false ≡ some (true, some text))
    × (q'.stdout ≡ process.stdout ++ text)
run_convert-run_convert_example =
    run_convert-run_convert read_hex any_name toupper to_ds8_options to_hex_options some_words
      process process to_ds8-IsFilter to_hex-IsFilter refl refl (omega arith) (omega arith)
      some_words-AreWords refl refl
