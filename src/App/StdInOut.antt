-- ===== src/App/StdInOut.antt =====
-- class StdInOutHandler (src/tcpclientapp.h, src/tcpclientapp.cpp), which puts two temporary files in the
-- place of the standard streams. Printing to std::cerr is left out.
use ossim_tcp_client.Prelude.{
  ℕ, List, [], ◌++◌, Option, none, some, Bool, true, false, ◌&&◌, not, ◌==◌, if◌then◌else◌, length,
}
use ossim_tcp_client.Protocol.{str_eq}
use ossim_tcp_client.App.Names.{stdin_name, stdout_name, str_to_upper, std_in_out}

-- The files and the standard streams: the contents of the files by their names, what is still to be read
-- of std::cin, what std::cout has printed, and whether std::cout prints to `tmpCoutStream_` instead
pub record Process : Type 0 where
  pub files : List ℕ → Option (List ℕ)
  pub stdin : List ℕ
  pub stdout : List ℕ
  pub redirected : Bool

-- A file is written, or removed.
unfoldable pub set_file : List ℕ → Option (List ℕ) → Process → Process
set_file name content p = record p {
  files = λ other. if str_eq other name then content else p.files other;
}

-- The fields of `StdInOutHandler`
pub record StdInOutHandler : Type 0 where
  pub file_name_in : List ℕ
  pub file_name_out : List ℕ
  pub error : ℕ

abbrev pub is_empty : List ℕ → Bool
is_empty name = length name == 0

-- `creatable` tells of a name whether a file of this name can be created.
module _ (creatable : List ℕ → Bool) where
  -- `start`, as far as the input
  unfoldable pub start_in : StdInOutHandler → Process → StdInOutHandler × Process
  start_in h p =
      if is_empty h.file_name_in
      then (h, p)
      else if creatable h.file_name_in
      then (if h.error == 0
          then (h, set_file h.file_name_in (some p.stdin) (record p { stdin = [] }))
          else (h, set_file h.file_name_in (some []) p))
      else (record h { error = 2 }, p)

  -- `StdInOutHandler::start`
  unfoldable pub start : StdInOutHandler → Process → StdInOutHandler × Process
  unfolding start_in
  start h p =
      let (h', p') = start_in h p in
      if h'.error == 0 && not (is_empty h'.file_name_out)
      then (h', record p' { redirected = true })
      else (h', p')

  -- `StdInOutHandler::StdInOutHandler`: the names of the files go through `std_in_out`.
  unfoldable pub new_std_in_out : (ℕ → ℕ) → List ℕ → List ℕ → Process → StdInOutHandler × Process
  unfolding start std_in_out str_to_upper
  new_std_in_out toupper in_file out_file p =
      let names = std_in_out toupper in_file out_file in
      start
        (record {
          file_name_in = if str_eq (str_to_upper toupper in_file) stdin_name then names.0 else [];
          file_name_out =
              if str_eq (str_to_upper toupper out_file) stdout_name then names.1 else [];
          error = 0;
        })
        p

-- `~StdInOutHandler`, as far as the output
unfoldable pub close_out : StdInOutHandler → Process → StdInOutHandler × Process
unfolding set_file
close_out h p = if is_empty h.file_name_out then (h, p) else elim (p.files h.file_name_out) [
  | none ↦ (record h { error = 2 }, p)
  | some content ↦
      if h.error == 0
      then (
        h,
        set_file h.file_name_out none
            (record p { redirected = false; stdout = p.stdout ++ content }),
      )
      else (h, p)
]

-- `StdInOutHandler::~StdInOutHandler`
unfoldable pub close_std_in_out : StdInOutHandler → Process → Process
unfolding close_out set_file
close_std_in_out h p =
    let p' = (close_out h p).1 in
    if is_empty h.file_name_in then p' else set_file h.file_name_in none p'
