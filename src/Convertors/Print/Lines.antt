-- ===== src/Convertors/Print/Lines.antt =====
-- What `file_bin_to_hex` writes for a file of whole words, and how `file_hex_to_bin` reads it.
use ossim_tcp_client.Prelude.{
  ℕ, zero, suc, ◌+◌, ◌-◌, ◌*◌, ◌/◌, ◌^◌, min, ◌<◌, ◌≤◌, ◌≡◌, refl, sym, ◌∙◌, ap, List, [], ◌∷◌,
  ◌++◌, some, Bool, true, false, ◌==◌, length, take, drop, replicate, arith, append_assoc, inl, inr,
  length-append, length-drop, length-take, length-replicate, take-append, drop-append, Bool-cases,
  take_all, leb, subst, take-append-drop,
}
use ossim_tcp_client.Bytes.{u_int64_to_char8}
use ossim_tcp_client.Bytes.Laws.{length-u_int64_to_char8, word_at?-append, write_at?-front}
use ossim_tcp_client.Convertors.Ds8.{◌>>=◌}
use ossim_tcp_client.Convertors.Hex.{words_bytes}
use ossim_tcp_client.Convertors.Hex.Words.{length-words_bytes, words_bytes-cut}
use ossim_tcp_client.Convertors.Print.{hex_line, print_words, bin_hex_loop, file_bin_to_hex}

-- The lines of some words
abbrev pub hex_lines : Bool → List ℕ → List ℕ
hex_lines tag [] = []
hex_lines tag (w ∷ ws) = hex_line tag w ++ hex_lines tag ws

-- All are 64-bit values.
pub data AreWords : List ℕ → Type 0 where
  no_words : AreWords []
  word : {w : ℕ} {ws : List ℕ} → w < 2 ^ 64 → AreWords ws → AreWords (w ∷ ws)

pub AreWords-drop : (k : ℕ) (ws : List ℕ) → AreWords ws → AreWords (drop k ws)
AreWords-drop zero ws a = a
AreWords-drop (suc k) [] a = a
AreWords-drop (suc k) (w ∷ ws) (AreWords.word h a) = AreWords-drop k ws a

pub AreWords-take : (k : ℕ) (ws : List ℕ) → AreWords ws → AreWords (take k ws)
AreWords-take zero ws a = AreWords.no_words
AreWords-take (suc k) [] a = a
AreWords-take (suc k) (w ∷ ws) (AreWords.word h a) = AreWords.word h (AreWords-take k ws a)

pub hex_lines-append :
    (tag : Bool) (vs ws : List ℕ) → hex_lines tag (vs ++ ws) ≡ hex_lines tag vs ++ hex_lines tag ws
hex_lines-append tag [] ws = refl
hex_lines-append tag (v ∷ vs) ws =
    rw
      (
        append_assoc (hex_line tag v) (hex_lines tag vs) (hex_lines tag ws),
        hex_lines-append tag vs ws,
      )
      refl

pub print_words-hex_lines :
    (tag : Bool) (front ws back : List ℕ) (j : ℕ)
    → length front ≡ 8 * j
    → AreWords ws
    → print_words tag (front ++ (words_bytes ws ++ back)) j (length ws) ≡ some (hex_lines tag ws)
unfolding print_words
print_words-hex_lines tag front [] back j e a = refl
print_words-hex_lines tag front (w ∷ ws) back j e (AreWords.word h a) =
    let front' : List ℕ = front ++ u_int64_to_char8 w in
    let ih =
      print_words-hex_lines tag front' ws back (j + 1)
        (omega (arith, length-append front (u_int64_to_char8 w), length-u_int64_to_char8 w)) a in
    let ih' = rw (append_assoc front (u_int64_to_char8 w) (words_bytes ws ++ back)) at ih in
    subst
      (λ m.
        print_words tag (front ++ m) j (suc (length ws))
        ≡ some (hex_line tag w ++ hex_lines tag ws))
      (sym (append_assoc (u_int64_to_char8 w) (words_bytes ws) back))
      (rw (word_at?-append j w front (words_bytes ws ++ back) e h, ◌>>=◌, ih') refl)

length-take-min : (k : ℕ) (ws : List ℕ) → length (take k ws) ≡ min k (length ws)
length-take-min k ws = elim (Bool-cases (leb k (length ws))) [
  | inl le ↦ length-take k ws (ground arith) ∙ ground arith
  | inr gt ↦ ap length (take_all k ws (ground arith)) ∙ ground arith
]

-- A round of the loop, with its read and its writes
bin_hex_round :
    (fuel : ℕ) (tag : Bool) (vs left mem : List ℕ)
    → AreWords vs
    → 0 < length vs
    → min (128 * 128) (length (words_bytes vs ++ left)) ≡ 8 * length vs
    → length mem ≡ 128 * 128
    → bin_hex_loop (suc fuel) tag (words_bytes vs ++ left) mem ≡ (
        bin_hex_loop fuel tag left (words_bytes vs ++ drop (8 * length vs) mem) >>= λ more.
        some (hex_lines tag vs ++ more))
unfolding bin_hex_loop
bin_hex_round fuel tag vs left mem a p need e =
    let size : length (words_bytes vs) ≡ 8 * length vs = length-words_bytes vs in
    let nonempty : (length (words_bytes vs ++ left) == 0) ≡ false =
      ground (arith, length-append (words_bytes vs) left) in
    let count : (8 * length vs + 7) / 8 ≡ length vs = omega arith in
    rw
      (
        nonempty,
        bin_hex_loop,
        need,
        take-append (8 * length vs) (words_bytes vs) left size,
        drop-append (8 * length vs) (words_bytes vs) left size,
        write_at?-front mem (words_bytes vs) (8 * length vs) size (omega arith),
        ◌>>=◌,
        count,
        print_words-hex_lines tag [] vs (drop (8 * length vs) mem) 0 refl a,
      )
      refl

bin_hex_loop-nil : (fuel : ℕ) (tag : Bool) (mem : List ℕ) → bin_hex_loop fuel tag [] mem ≡ some []
unfolding bin_hex_loop
bin_hex_loop-nil zero tag mem = refl
bin_hex_loop-nil (suc fuel) tag mem = refl

bin_hex_loop-hex_lines :
    (fuel : ℕ) (tag : Bool) (ws mem : List ℕ)
    → AreWords ws
    → length mem ≡ 128 * 128
    → length ws ≤ fuel
    → bin_hex_loop fuel tag (words_bytes ws) mem ≡ some (hex_lines tag ws)
bin_hex_loop-hex_lines fuel tag [] mem a e h = bin_hex_loop-nil fuel tag mem
bin_hex_loop-hex_lines zero tag (w ∷ ws) mem a e h = absurd (omega arith)
bin_hex_loop-hex_lines (suc fuel) tag (w ∷ ws) mem a e h =
    let vs : List ℕ = take 2048 (w ∷ ws) in
    let us : List ℕ = drop 2048 (w ∷ ws) in
    let lv : length vs ≡ min 2048 (length (w ∷ ws)) = length-take-min 2048 (w ∷ ws) in
    let lu : length us ≡ length (w ∷ ws) - 2048 = length-drop 2048 (w ∷ ws) in
    let mem' : List ℕ = words_bytes vs ++ drop (8 * length vs) mem in
    let cut : words_bytes vs ++ words_bytes us ≡ words_bytes (w ∷ ws) =
      words_bytes-cut 2048 (w ∷ ws) in
    let lines : hex_lines tag vs ++ hex_lines tag us ≡ hex_lines tag (w ∷ ws) =
      sym (hex_lines-append tag vs us) ∙ ap (hex_lines tag) (take-append-drop 2048 (w ∷ ws)) in
    let ih =
      bin_hex_loop-hex_lines fuel tag us mem' (AreWords-drop 2048 (w ∷ ws) a)
        (omega (
          arith,
          length-append (words_bytes vs) (drop (8 * length vs) mem),
          length-words_bytes vs,
          length-drop (8 * length vs) mem,
        ))
        (omega arith) in
    let round =
      bin_hex_round fuel tag vs (words_bytes us) mem (AreWords-take 2048 (w ∷ ws) a) (omega arith)
        (omega (
          arith,
          length-append (words_bytes vs) (words_bytes us),
          length-words_bytes vs,
          length-words_bytes us,
        ))
        e in
    subst (λ bs. bin_hex_loop (suc fuel) tag bs mem ≡ some (hex_lines tag (w ∷ ws))) cut
      (rw (ih, ◌>>=◌, lines) at round)

-- `file_bin_to_hex` succeeds on a file of 64-bit words and writes one line for each word, tagged or
-- not.
pub file_bin_to_hex-hex_lines :
    (tag : Bool) (ws : List ℕ)
    → AreWords ws
    → file_bin_to_hex (some (words_bytes ws)) true tag ≡ some (true, some (hex_lines tag ws))
unfolding file_bin_to_hex
file_bin_to_hex-hex_lines tag ws a =
    rw
      (
        bin_hex_loop-hex_lines (length (words_bytes ws)) tag ws (replicate (128 * 128) 0) a
            (length-replicate {A = ℕ} (128 * 128) 0) (omega (arith, length-words_bytes ws)),
        ◌>>=◌,
      )
      refl
