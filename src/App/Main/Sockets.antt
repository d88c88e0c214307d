-- ===== src/App/Main/Sockets.antt =====
-- The sockets that `main` (app/client-app/main.cpp) asks for
use ossim_tcp_client.Prelude.{
  ℕ, ◌%◌, ◌≡◌, refl, Option, none, some, Bool, true, false, ltb, pos_part, arith, inl, inr, ◌⊎◌,
  Bool-cases, Option-cases, List, if◌then◌else◌,
}
use ossim_tcp_client.Protocol.{ConnectionInfo}
use ossim_tcp_client.App.Names.{FileType, type_eq, std_in_out}
use ossim_tcp_client.App.Main.{
  Options, Parsed, Action, connection_info, wrong_sockets, sockets_of, send_by_type, send_action,
  convert_action, main,
}

-- Sockets can be shared out: each goes both ways, or they are halved.
abbrev pub CanShare : ConnectionInfo → Type 0
CanShare info = (info.is_duplex_sockets ≡ true) ⊎ (info.n_sockets % 2 ≡ 0)

-- The action's connection, if it opens one, has sockets that can be shared out.
abbrev pub Shareable : Action → Type 0
Shareable (Action.run_send_bin_file info a b) = CanShare info
Shareable (Action.run_send_hex_file info a b) = CanShare info
Shareable (Action.run_send_ds8_file info a b) = CanShare info
Shareable (Action.run_send_exit_only info t) = CanShare info
Shareable _ = Unit {0}

connection_info-CanShare : (o : Options) → wrong_sockets o ≡ false → CanShare (connection_info o)
unfolding connection_info wrong_sockets sockets_of
connection_info-CanShare o h = elim (Bool-cases o.duplex) [
  | inl both ↦ inl (rw both refl)
  | inr halves ↦ elim (Bool-cases (ltb 1 (pos_part o.n_sockets))) [
    | inl many ↦ inr (ground arith)
    | inr one ↦ inl (rw one (ground arith))
  ]
]

send_by_type-Shareable :
    (t : Option FileType) (info : ConnectionInfo) (name out : List ℕ)
    → CanShare info
    → Shareable (send_by_type t info name out)
unfolding send_by_type
send_by_type-Shareable none info name out h = h
send_by_type-Shareable (some FileType.bin) info name out h = h
send_by_type-Shareable (some FileType.hex) info name out h = h
send_by_type-Shareable (some FileType.ds8) info name out h = h
send_by_type-Shareable (some FileType.mem) info name out h = h

convert_action-Shareable :
    (a b : FileType) (o : Options) (x y : List ℕ) → Shareable (convert_action a b o x y)
unfolding convert_action
convert_action-Shareable FileType.bin FileType.bin o x y = tt
convert_action-Shareable FileType.bin FileType.hex o x y = tt
convert_action-Shareable FileType.bin FileType.ds8 o x y = tt
convert_action-Shareable FileType.bin FileType.mem o x y = tt
convert_action-Shareable FileType.hex FileType.bin o x y = tt
convert_action-Shareable FileType.hex FileType.hex o x y = tt
convert_action-Shareable FileType.hex FileType.ds8 o x y = tt
convert_action-Shareable FileType.hex FileType.mem o x y = tt
convert_action-Shareable FileType.ds8 FileType.bin o x y = tt
convert_action-Shareable FileType.ds8 FileType.hex o x y = tt
convert_action-Shareable FileType.ds8 FileType.ds8 o x y = tt
convert_action-Shareable FileType.ds8 FileType.mem o x y = tt
convert_action-Shareable FileType.mem b o x y = tt

either :
    (b : Bool) (x y : ℕ × Action) → Shareable x.1 → Shareable y.1 → Shareable (if b then x else y).1
either true x y h k = h
either false x y h k = k

module _ (toupper : ℕ → ℕ) where
  send_action-Shareable :
      (o : Options) → wrong_sockets o ≡ false → Shareable (send_action toupper o)
  unfolding send_action
  send_action-Shareable o h =
      let share = connection_info-CanShare o h in
      elim (Option-cases o.data_file) [
        | inl missing ↦ rw (missing, send_action) share
        | inr (name, given) ↦
            rw (given, send_action) (send_by_type-Shareable o.type (connection_info o) _ _ share)
      ]

  parsed-Shareable : (o : Options) → Shareable (main toupper (Parsed.parsed o)).1
  unfolding main
  parsed-Shareable o = elim (Bool-cases (wrong_sockets o)) [
    | inl wrong ↦ rw wrong tt
    | inr good ↦
        let names : List ℕ × List ℕ = std_in_out toupper o.ifile o.ofile in
        let call : Action = convert_action o.itype o.otype o names.0 names.1 in
        rw good (
          either o.cmd_send (0, send_action toupper o)
            (if o.cmd_convert
              then (if type_eq o.itype o.otype then (3, Action.nothing) else (0, call))
              else (0, Action.nothing))
            (send_action-Shareable o good)
            (either o.cmd_convert
              (if type_eq o.itype o.otype then (3, Action.nothing) else (0, call))
              (0, Action.nothing)
              (either (type_eq o.itype o.otype) (3, Action.nothing) (0, call) tt
                (convert_action-Shareable o.itype o.otype o names.0 names.1))
              tt))
  ]

  -- Whatever the parser answers, the `ConnectionInfo` that `main` passes to a sender asks for
  -- duplex sockets or for an even number of them, also where the number is cut to a byte.
  -- `configSocket` replaces both by the values of the server later on.
  pub main-Shareable : (p : Parsed) → Shareable (main toupper p).1
  unfolding main
  main-Shareable Parsed.help = tt
  main-Shareable Parsed.parse_error = tt
  main-Shareable Parsed.validation_error = tt
  main-Shareable (Parsed.parsed o) = parsed-Shareable o
