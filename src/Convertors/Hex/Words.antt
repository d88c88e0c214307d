-- ===== src/Convertors/Hex/Words.antt =====
-- The words of a hex file, and what `file_hex_to_bin` makes of them.
use ossim_tcp_client.Prelude.{
  ℕ, zero, suc, ◌*◌, ◌/◌, ◌<◌, ◌≤◌, ◌≡◌, refl, sym, ◌∙◌, ap, List, [], ◌∷◌, ◌++◌, Option, none,
  some, Bool, true, false, length, take, drop, arith, append_assoc, inl, inr, ◌⊎◌, length-append,
  Option-cases, length-drop, take-append-drop,
}
use ossim_tcp_client.Bytes.{u_int64_to_char8}
use ossim_tcp_client.Bytes.Laws.{length-u_int64_to_char8}
use ossim_tcp_client.Convertors.Ds8.{◌>>=◌}
use ossim_tcp_client.Convertors.Hex.{words_bytes, read_words, hex_bin_loop}

pub length-words_bytes : (ws : List ℕ) → length (words_bytes ws) ≡ 8 * length ws
length-words_bytes [] = refl
length-words_bytes (w ∷ ws) = omega (
  arith,
  length-append (u_int64_to_char8 w) (words_bytes ws),
  length-u_int64_to_char8 w,
  length-words_bytes ws,
)

pub words_bytes-append :
    (vs ws : List ℕ) → words_bytes (vs ++ ws) ≡ words_bytes vs ++ words_bytes ws
words_bytes-append [] ws = refl
words_bytes-append (v ∷ vs) ws =
    rw
      (
        append_assoc (u_int64_to_char8 v) (words_bytes vs) (words_bytes ws),
        words_bytes-append vs ws,
      )
      refl

pub words_bytes-cut :
    (k : ℕ) (ws : List ℕ) → words_bytes (take k ws) ++ words_bytes (drop k ws) ≡ words_bytes ws
words_bytes-cut k ws =
    sym (words_bytes-append (take k ws) (drop k ws)) ∙ ap words_bytes (take-append-drop k ws)

module _ (extract : List ℕ → Option (ℕ × List ℕ)) where
  -- An extraction that succeeds takes some of the file.
  abbrev pub Shortens : Type 0
  Shortens = (ifs : List ℕ) (p : ℕ × List ℕ) → extract ifs ≡ some p → length p.1 < length ifs

  -- `ws` are all words that can be extracted, up to the first failure.
  pub data WordsOf : List ℕ → List ℕ → Type 0 where
    stop : {ifs : List ℕ} → extract ifs ≡ none → WordsOf ifs []
    next :
        {ifs ws : List ℕ} (p : ℕ × List ℕ)
        → extract ifs ≡ some p
        → WordsOf p.1 ws
        → WordsOf ifs (p.0 ∷ ws)

  pub has_words :
      (fuel : ℕ) (ifs : List ℕ)
      → Shortens
      → length ifs < fuel
      → (ws : List ℕ) × WordsOf ifs ws × (length ws ≤ length ifs)
  has_words zero ifs sh h = absurd (omega arith)
  has_words (suc fuel) ifs sh h = elim (Option-cases (extract ifs)) [
    | inl e ↦ ([], WordsOf.stop e, omega arith)
    | inr (p, e) ↦
        let lt = sh ifs p e in
        let (ws, words, le) = has_words fuel p.1 sh (omega arith) in
        (p.0 ∷ ws, WordsOf.next p e words, omega arith)
  ]

  -- How an inner loop of `count` rounds ends: behind the last word, or with `count` words.
  unfoldable pub ReadPost : ℕ → List ℕ → List ℕ × Bool × List ℕ → Type 0
  ReadPost count ws r =
      ((length ws < count) × (r.0 ≡ ws) × (r.1 ≡ true))
      ⊎ ((count ≤ length ws) × (r.0 ≡ take count ws) × (r.1 ≡ false) × WordsOf r.2 (drop count ws))

  pub read_words-ReadPost :
      (count : ℕ) (ifs ws : List ℕ)
      → WordsOf ifs ws
      → ReadPost count ws (read_words extract count ifs)
  unfolding read_words ReadPost
  read_words-ReadPost zero ifs ws words = inr (omega arith, refl, refl, words)
  read_words-ReadPost (suc count) ifs _ (WordsOf.stop e) =
      rw (e, read_words) (inl (omega arith, refl, refl))
  read_words-ReadPost (suc count) ifs _ (WordsOf.next {ws = ws} p e words) =
      rw (e, read_words)
        (elim (read_words-ReadPost count p.1 ws words) [
          | inl (lt, same, failed) ↦ inl (omega arith, ap (λ vs. p.0 ∷ vs) same, failed)
          | inr (le, same, going, rest) ↦ inr (omega arith, ap (λ vs. p.0 ∷ vs) same, going, rest)
        ])

  -- The loop of `file_hex_to_bin` writes all words.
  pub hex_bin_loop-WordsOf :
      (fuel : ℕ) (ifs ws : List ℕ)
      → WordsOf ifs ws
      → length ws < fuel
      → hex_bin_loop extract fuel ifs ≡ some (words_bytes ws)
  unfolding hex_bin_loop ReadPost
  hex_bin_loop-WordsOf zero ifs ws words h = absurd (omega arith)
  hex_bin_loop-WordsOf (suc fuel) ifs ws words h =
      let k : ℕ = 128 * 128 / 8 in
      elim (read_words-ReadPost k ifs ws words) [
        | inl (lt, same, failed) ↦ rw (failed, hex_bin_loop, same) refl
        | inr (le, same, going, rest) ↦
            let ih =
              hex_bin_loop-WordsOf fuel (read_words extract k ifs).2 (drop k ws) rest
                (omega (arith, length-drop k ws)) in
            rw (going, hex_bin_loop, ih, same, ◌>>=◌, words_bytes-cut k ws) refl
      ]
