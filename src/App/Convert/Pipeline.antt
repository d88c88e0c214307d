-- ===== src/App/Convert/Pipeline.antt =====
-- Two runs of the command to convert (app/client-app/main.cpp), the first of which prints what the second
-- reads.
use ossim_tcp_client.Prelude.{
  ℕ, ◌++◌, ◌^◌, ◌<◌, ◌≡◌, ◌∙◌, refl, ap, List, [], Option, some, Bool, true,
}
use ossim_tcp_client.Protocol.{str_eq}
use ossim_tcp_client.Client.Send.TcpIo.{IsBlockSize}
use ossim_tcp_client.Convertors.Ds8.{file_bin_to_ds8}
use ossim_tcp_client.Convertors.Hex.{words_bytes}
use ossim_tcp_client.Convertors.Print.{file_bin_to_hex, file_ds8_to_hex}
use ossim_tcp_client.Convertors.Print.Lines.{AreWords}
use ossim_tcp_client.Convertors.Print.Frames.{file_ds8_to_hex-file_bin_to_ds8}
use ossim_tcp_client.App.Names.{
  FileType, stdin_name, stdout_name, stdin_tmp, stdout_tmp, str_to_upper,
}
use ossim_tcp_client.App.Main.{Options, convert_action}
use ossim_tcp_client.App.StdInOut.{Process}
use ossim_tcp_client.App.Convert.{conversion, run_convert}
use ossim_tcp_client.App.Convert.Streams.{Done, stdin_to_stdout}

-- The options ask for a conversion of the standard input to the standard output.
pub record IsFilter (toupper : ℕ → ℕ) (itype otype : FileType) (o : Options) : Type 0 where
  pub input : str_eq (str_to_upper toupper o.ifile) stdin_name ≡ true
  pub output : str_eq (str_to_upper toupper o.ofile) stdout_name ≡ true
  pub from : o.itype ≡ itype
  pub to : o.otype ≡ otype

module _ (extract : List ℕ → Option (ℕ × List ℕ)) (creatable : List ℕ → Bool)
    (toupper : ℕ → ℕ) where
  to_ds8 :
      (o : Options) (p : Process) (bs out : List ℕ)
      → IsFilter toupper FileType.bin FileType.ds8 o
      → creatable stdin_tmp ≡ true
      → creatable stdout_tmp ≡ true
      → p.stdin ≡ bs
      → file_bin_to_ds8 (some bs) true o.block_size ≡ some (true, some out)
      → (p' : Process) × (run_convert extract creatable toupper o p ≡ some p')
        × Done (some out) p p'
  unfolding conversion convert_action
  to_ds8 o p bs out f ci co e w =
      stdin_to_stdout extract creatable toupper o p
        (record {
          ifile = stdin_tmp;
          ofile = stdout_tmp;
          convert = λ g c. file_bin_to_ds8 g c o.block_size;
        })
        true (some out) f.input f.output ci co (rw (f.from, f.to) refl) (rw e w)

  to_hex :
      (o : Options) (p : Process) (bs out : List ℕ)
      → IsFilter toupper FileType.ds8 FileType.hex o
      → creatable stdin_tmp ≡ true
      → creatable stdout_tmp ≡ true
      → p.stdin ≡ bs
      → file_ds8_to_hex (some bs) true o.tag ≡ some (true, some out)
      → (p' : Process) × (run_convert extract creatable toupper o p ≡ some p')
        × Done (some out) p p'
  unfolding conversion convert_action
  to_hex o p bs out f ci co e w =
      stdin_to_stdout extract creatable toupper o p
        (record {
          ifile = stdin_tmp;
          ofile = stdout_tmp;
          convert = λ g c. file_ds8_to_hex g c o.tag;
        })
        true (some out) f.input f.output ci co (rw (f.from, f.to) refl) (rw e w)

  -- Two runs of the command to convert with "STDIN" and "STDOUT" for their files, the first from bin to
  -- ds8 with a block size of whole words from 24 on that is a 32-bit value, the second from ds8 to hex on
  -- what the first one has printed: if the temporary files can be created, both end, and for 64-bit words
  -- on the standard input the second one prints what `file_bin_to_hex` makes of them.
  pub run_convert-run_convert :
      (o o' : Options) (ws : List ℕ) (p q : Process)
      → IsFilter toupper FileType.bin FileType.ds8 o
      → IsFilter toupper FileType.ds8 FileType.hex o'
      → creatable stdin_tmp ≡ true
      → creatable stdout_tmp ≡ true
      → IsBlockSize o.block_size
      → o.block_size < 2 ^ 32
      → AreWords ws
      → p.stdin ≡ words_bytes ws
      → p.stdout ≡ []
      → (p' : Process) × (q' : Process) × (text : List ℕ) × (run_convert extract creatable toupper o
            p
          ≡ some p')
        × (run_convert extract creatable toupper o' (record q { stdin = p'.stdout }) ≡ some q')
        × (file_bin_to_hex (some (words_bytes ws)) true o'.tag ≡ some (true, some text))
        × (q'.stdout ≡ q.stdout ++ text)
  run_convert-run_convert o o' ws p q f g ci co size hi a e none_yet =
      let (out, text, made, printed, same) =
        file_ds8_to_hex-file_bin_to_ds8 ws o.block_size o'.tag a size hi in
      let (p', first, d) = to_ds8 o p (words_bytes ws) out f ci co e made in
      let shown : p'.stdout ≡ out = d.shows.0 ∙ ap (λ (before : List ℕ). before ++ out) none_yet in
      let (q', second, d') =
        to_hex o' (record q { stdin = p'.stdout }) out text g ci co shown printed in
      (p', q', text, first, second, same, d'.shows.0)
