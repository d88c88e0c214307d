-- ===== src/App/Convert/Streams.antt =====
-- Converting the standard input to the standard output (app/client-app/main.cpp, class StdInOutHandler)
use mathlib.Core.Option.{some-injective}
use ossim_tcp_client.Prelude.{
  ℕ, ◌≡◌, ◌∙◌, refl, sym, ap, List, [], ◌++◌, Option, none, some, Bool, true, false, ◌||◌,
  if◌then◌else◌, ◌∷◌, ◌==◌, Bool-cases, inl, inr, arith,
}
use ossim_tcp_client.Protocol.{str_eq}
use ossim_tcp_client.Convertors.Ds8.{◌>>=◌}
use ossim_tcp_client.App.Names.{
  FileType, stdin_name, stdout_name, stdin_tmp, stdout_tmp, str_to_upper, std_in_out,
}
use ossim_tcp_client.App.Main.{Options, Action, convert_action}
use ossim_tcp_client.App.StdInOut.{
  Process, StdInOutHandler, set_file, start_in, start, new_std_in_out, close_out, close_std_in_out,
}
use ossim_tcp_client.App.Convert.{Conversion, conversion, perform, convert_between, run_convert}

-- The converter of a pair of types has the names that are given to it.
names_of : (k c : Conversion) → some k ≡ some c → (c.ifile ≡ k.ifile) × (c.ofile ≡ k.ofile)
names_of k c e =
    let same : k ≡ c = some-injective k c e in
    (sym (ap (λ (k : Conversion). k.ifile) same), sym (ap (λ (k : Conversion). k.ofile) same))

module _ (extract : List ℕ → Option (ℕ × List ℕ)) where
  conversion-names :
      (a b : FileType) (o : Options) (x y : List ℕ) (c : Conversion)
      → conversion extract (convert_action a b o x y) ≡ some c
      → (c.ifile ≡ x) × (c.ofile ≡ y)
  unfolding conversion convert_action
  conversion-names FileType.bin FileType.bin o x y c e = cc
  conversion-names FileType.bin FileType.hex o x y c e = names_of _ c e
  conversion-names FileType.bin FileType.ds8 o x y c e = names_of _ c e
  conversion-names FileType.bin FileType.mem o x y c e = cc
  conversion-names FileType.hex FileType.bin o x y c e = names_of _ c e
  conversion-names FileType.hex FileType.hex o x y c e = cc
  conversion-names FileType.hex FileType.ds8 o x y c e = names_of _ c e
  conversion-names FileType.hex FileType.mem o x y c e = cc
  conversion-names FileType.ds8 FileType.bin o x y c e = names_of _ c e
  conversion-names FileType.ds8 FileType.hex o x y c e = names_of _ c e
  conversion-names FileType.ds8 FileType.ds8 o x y c e = cc
  conversion-names FileType.ds8 FileType.mem o x y c e = cc
  conversion-names FileType.mem FileType.bin o x y c e = cc
  conversion-names FileType.mem FileType.hex o x y c e = cc
  conversion-names FileType.mem FileType.ds8 o x y c e = cc
  conversion-names FileType.mem FileType.mem o x y c e = cc

-- What is printed of the file `stdout.tmp`: where there is none, std::cout is left redirected.
abbrev pub Shown : Option (List ℕ) → Process → Process → Type 0
Shown (some content) p p' = (p'.stdout ≡ p.stdout ++ content) × (p'.redirected ≡ false)
Shown none p p' = (p'.stdout ≡ p.stdout) × (p'.redirected ≡ true)

-- What stands in `stdout.tmp`: the output, or where none was created what stood there before
abbrev pub left_in : Option (List ℕ) → Option (List ℕ) → Option (List ℕ)
left_in none old = old
left_in (some out) old = some out

-- A process whose input has been read, and whose temporary files are gone
pub record Done (shown : Option (List ℕ)) (p p' : Process) : Type 0 where
  pub shows : Shown shown p p'
  pub stdin : p'.stdin ≡ []
  pub files :
      (name : List ℕ)
      → p'.files name
        ≡ (if str_eq name stdin_tmp || str_eq name stdout_tmp then none else p.files name)

-- The handler between its two temporary files, and the process behind its constructor
abbrev handler : StdInOutHandler
handler = record { file_name_in = stdin_tmp; file_name_out = stdout_tmp; error = 0 }

abbrev started : Process → Process
started p = record (set_file stdin_tmp (some p.stdin) (record p { stdin = [] })) {
  redirected = true;
}

starts :
    (creatable : List ℕ → Bool) (toupper : ℕ → ℕ) (ifile ofile : List ℕ) (p : Process)
    → str_eq (str_to_upper toupper ifile) stdin_name ≡ true
    → str_eq (str_to_upper toupper ofile) stdout_name ≡ true
    → creatable stdin_tmp ≡ true
    → (std_in_out toupper ifile ofile ≡ (stdin_tmp, stdout_tmp))
      × (new_std_in_out creatable toupper ifile ofile p ≡ (handler, started p))
unfolding std_in_out new_std_in_out start start_in
starts creatable toupper ifile ofile p i o c =
    (rw (std_in_out, i, o) refl, rw (new_std_in_out, i, o, c) refl)

after : Option (List ℕ) → Process → Process
unfolding set_file
after none p = started p
after (some out) p = set_file stdout_tmp (some out) (started p)

str_eq_sound : (s t : List ℕ) → str_eq s t ≡ true → s ≡ t
unfolding str_eq
str_eq_sound [] [] e = refl
str_eq_sound [] (b ∷ t) e = cc
str_eq_sound (a ∷ s) [] e = cc
str_eq_sound (a ∷ s) (b ∷ t) e = elim (Bool-cases (a == b)) [
  | inl same ↦ let first : a ≡ b = ground arith in rw (first, str_eq_sound s t (rw same at e)) refl
  | inr other ↦ let z : false ≡ true = rw other at e in cc
]

closed_out :
    (p : Process) (content : List ℕ)
    → p.files stdout_tmp ≡ some content
    → close_out handler p ≡ (
      handler,
      set_file stdout_tmp none (record p { redirected = false; stdout = p.stdout ++ content }),
    )
unfolding close_out
closed_out p content e = rw (close_out, e) refl

not_closed : (p : Process) → p.files stdout_tmp ≡ none → (close_out handler p).1 ≡ p
unfolding close_out
not_closed p e = rw (close_out, e) refl

-- The tests of the names, behind both removals
both_gone :
    {A : Type 0} (a b : Bool) (x y z : A)
    → (if a then x else if b then x else if a then y else z) ≡ (if a || b then x else z)
both_gone true b x y z = refl
both_gone false b x y z = refl

output_gone :
    {A : Type 0} (a b : Bool) (x w y z : A)
    → (if a then x else if b then x else if b then w else if a then y else z)
      ≡ (if a || b then x else z)
output_gone true b x w y z = refl
output_gone false true x w y z = refl
output_gone false false x w y z = refl

input_gone :
    {A : Type 0} (a b : Bool) (x y z : A)
    → (b ≡ true → z ≡ x)
    → (if a then x else if a then y else z) ≡ (if a || b then x else z)
input_gone true b x y z h = refl
input_gone false true x y z h = h refl
input_gone false false x y z h = refl

ends :
    (out? old : Option (List ℕ)) (p : Process)
    → p.files stdout_tmp ≡ old
    → Done (left_in out? old) p (close_std_in_out handler (after out? p))
unfolding after set_file close_std_in_out str_eq
ends (some out) old p e = record {
  shows = (refl, refl);
  stdin = refl;
  files = λ name.
      output_gone (str_eq name stdin_tmp) (str_eq name stdout_tmp) none (some out) (some p.stdin)
        (p.files name);
}
ends none (some content) p e =
    rw (close_std_in_out, closed_out (after none p) content e)
      (record {
        shows = (refl, refl);
        stdin = refl;
        files = λ name.
            both_gone (str_eq name stdin_tmp) (str_eq name stdout_tmp) none (some p.stdin)
              (p.files name);
      })
ends none none p e =
    rw (close_std_in_out, not_closed (after none p) e)
      (record {
        shows = (refl, refl);
        stdin = refl;
        files = λ name.
            input_gone (str_eq name stdin_tmp) (str_eq name stdout_tmp) none (some p.stdin)
              (p.files name) (λ same. ap p.files (str_eq_sound name stdout_tmp same) ∙ e);
      })

performs :
    (extract : List ℕ → Option (ℕ × List ℕ)) (creatable : List ℕ → Bool) (a : Action) (p : Process)
    (c : Conversion) (ok : Bool) (out? : Option (List ℕ))
    → conversion extract a ≡ some c
    → (c.ifile ≡ stdin_tmp) × (c.ofile ≡ stdout_tmp)
    → creatable stdout_tmp ≡ true
    → c.convert (some p.stdin) true ≡ some (ok, out?)
    → perform extract creatable a (started p) ≡ some (after out? p)
unfolding perform set_file str_eq after
performs extract creatable a p c ok none conv (i, u) co e =
    rw (conv, perform, i, u, co, e, ◌>>=◌) refl
performs extract creatable a p c ok (some out) conv (i, u) co e =
    rw (conv, perform, i, u, co, e, ◌>>=◌)
      (ap (λ (name : List ℕ). some (set_file name (some out) (started p))) u)

-- With an input and an output that are "STDIN" and "STDOUT" behind `toupper`, and two different types, of
-- which none is mem, the command to convert gives the converter what is left of the standard input; when the
-- converter ends and the temporary files can be created, the standard input is read to its end, both
-- temporary files are gone, no other file has changed, and the standard output shows the converter's
-- output. Where the converter creates none, it shows what stood in "stdout.tmp" before, and if there was
-- no such file, std::cout is left redirected.
pub stdin_to_stdout :
    (extract : List ℕ → Option (ℕ × List ℕ)) (creatable : List ℕ → Bool) (toupper : ℕ → ℕ)
    (o : Options) (p : Process) (c : Conversion) (ok : Bool) (out? : Option (List ℕ))
    → str_eq (str_to_upper toupper o.ifile) stdin_name ≡ true
    → str_eq (str_to_upper toupper o.ofile) stdout_name ≡ true
    → creatable stdin_tmp ≡ true
    → creatable stdout_tmp ≡ true
    → conversion extract (convert_action o.itype o.otype o stdin_tmp stdout_tmp) ≡ some c
    → c.convert (some p.stdin) true ≡ some (ok, out?)
    → (p' : Process) × (run_convert extract creatable toupper o p ≡ some p')
      × Done (left_in out? (p.files stdout_tmp)) p p'
unfolding run_convert convert_between
stdin_to_stdout extract creatable toupper o p c ok out? i u ci co conv e =
    let (names, begun) = starts creatable toupper o.ifile o.ofile p i u ci in
    (
      close_std_in_out handler (after out? p),
      ap
            (λ (n : List ℕ × List ℕ).
              convert_between extract creatable o n
                (new_std_in_out creatable toupper o.ifile o.ofile p))
            names
          ∙ ap (convert_between extract creatable o (stdin_tmp, stdout_tmp)) begun
          ∙ ap (λ (q : Option Process). q >>= λ p'. some (close_std_in_out handler p'))
              (performs extract creatable (convert_action o.itype o.otype o stdin_tmp stdout_tmp) p
                c ok out? conv
                (conversion-names extract o.itype o.otype o stdin_tmp stdout_tmp c conv) co e),
      ends out? (p.files stdout_tmp) p refl,
    )
