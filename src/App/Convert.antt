-- ===== src/App/Convert.antt =====
-- `main` of app/client-app/main.cpp with the command to convert, on the files and the standard streams.
-- A result of `none` is memory outside of a buffer, a division by 0, or an input that is its own
-- output, which is not modelled.
pub mod Streams
pub mod Pipeline
use ossim_tcp_client.Prelude.{ℕ, List, Option, none, some, Bool, if◌then◌else◌}
use ossim_tcp_client.Protocol.{str_eq}
use ossim_tcp_client.Convertors.Ds8.{◌>>=◌, file_bin_to_ds8, file_ds8_to_bin}
use ossim_tcp_client.Convertors.Hex.{file_hex_to_ds8, file_hex_to_bin}
use ossim_tcp_client.Convertors.Print.{file_bin_to_hex, file_ds8_to_hex}
use ossim_tcp_client.App.Names.{std_in_out}
use ossim_tcp_client.App.Main.{Options, Action, convert_action}
use ossim_tcp_client.App.StdInOut.{
  Process, StdInOutHandler, set_file, new_std_in_out, close_std_in_out,
}

-- A converter with the names of its files: its input if it can be opened, and whether its output can be
-- created, give what it returns and the output that was created.
pub record Conversion : Type 0 where
  pub ifile : List ℕ
  pub ofile : List ℕ
  pub convert : Option (List ℕ) → Bool → Option (Bool × Option (List ℕ))

module _ (extract : List ℕ → Option (ℕ × List ℕ)) where
  -- The converter that is called
  unfoldable pub conversion : Action → Option Conversion
  conversion (Action.run_file_bin_to_hex i o tag) =
      some (record { ifile = i; ofile = o; convert = λ f c. file_bin_to_hex f c tag })
  conversion (Action.run_file_ds8_to_hex i o tag) =
      some (record { ifile = i; ofile = o; convert = λ f c. file_ds8_to_hex f c tag })
  conversion (Action.run_file_bin_to_ds8 i o n) =
      some (record { ifile = i; ofile = o; convert = λ f c. file_bin_to_ds8 f c n })
  conversion (Action.run_file_hex_to_ds8 i o n) =
      some (record { ifile = i; ofile = o; convert = λ f c. file_hex_to_ds8 extract f c n })
  conversion (Action.run_file_hex_to_bin i o) =
      some (record { ifile = i; ofile = o; convert = file_hex_to_bin extract })
  conversion (Action.run_file_ds8_to_bin i o) =
      some (record { ifile = i; ofile = o; convert = file_ds8_to_bin })
  conversion _ = none

  module _ (creatable : List ℕ → Bool) where
    -- The call, on the files
    unfoldable pub perform : Action → Process → Option Process
    unfolding conversion
    perform a p = elim (conversion a) [
      | none ↦ some p
      | some c ↦
          if str_eq c.ifile c.ofile
          then none
          else (c.convert (p.files c.ifile) (creatable c.ofile) >>= λ r. elim r.1 [
            | none ↦ some p
            | some out ↦ some (set_file c.ofile (some out) p)
          ])
    ]

    -- The branch of `cmd_convert` for two different types, behind the constructor of its handler
    unfoldable pub convert_between :
        Options → List ℕ × List ℕ → StdInOutHandler × Process → Option Process
    unfolding perform
    convert_between o (in_file, out_file) (io_handler, p) =
        perform (convert_action o.itype o.otype o in_file out_file) p >>= λ p'.
        some (close_std_in_out io_handler p')

    -- With the constructor, which changes the names
    unfoldable pub run_convert : (ℕ → ℕ) → Options → Process → Option Process
    unfolding convert_between
    run_convert toupper o p =
        convert_between o (std_in_out toupper o.ifile o.ofile)
          (new_std_in_out creatable toupper o.ifile o.ofile p)
