-- ===== src/Examples/Hex.antt =====
-- A concrete reader of hex numbers, and the theorems on hex files with it.
use ossim_tcp_client.Prelude.{
  ℕ, zero, suc, ◌+◌, ◌-◌, ◌*◌, ◌/◌, ◌%◌, ◌^◌, ◌<◌, ◌≤◌, ◌≡◌, refl, sym, ◌∙◌, ap, List, [], ◌∷◌,
  ◌++◌, Option, none, some, true, false, ◌&&◌, ◌==◌, leb, if◌then◌else◌, length, arith,
  append_assoc, inl, inr, Option-cases, Bool-cases, subst,
}
use mathlib.Core.Option.{some-injective}
use ossim_tcp_client.Convertors.Hex.{words_bytes, file_hex_to_bin, file_hex_to_ds8}
use ossim_tcp_client.Convertors.Hex.Words.{WordsOf, Shortens}
use ossim_tcp_client.Convertors.Hex.Blocks.{file_hex_to_ds8-file_hex_to_bin}
use ossim_tcp_client.Convertors.Ds8.{file_ds8_to_bin}
use ossim_tcp_client.Convertors.Print.{hex_digit, hex_digits, file_bin_to_hex}
use ossim_tcp_client.Convertors.Print.Lines.{hex_lines, AreWords, file_bin_to_hex-hex_lines}
use ossim_tcp_client.Convertors.Print.RoundTrip.{ReadsLines, file_hex_to_bin-file_bin_to_hex}

abbrev pub digit_value : ℕ → Option ℕ
digit_value b =
    if leb b'0' b && leb b b'9'
    then some (b - b'0')
    else if leb b'a' b && leb b b'f'
    then some (b - b'a' + 10)
    else none

-- The value of the digits in front, and what follows them
abbrev read_digits : ℕ → List ℕ → ℕ × List ℕ
read_digits acc [] = (acc, [])
read_digits acc (b ∷ s) = elim (digit_value b) [
  | none ↦ (acc, b ∷ s)
  | some d ↦ read_digits (acc * 16 + d) s
]

unfoldable pub read_number : List ℕ → Option (ℕ × List ℕ)
read_number [] = none
read_number (b ∷ s) = elim (digit_value b) [ none ↦ none | some d ↦ some (read_digits 0 (b ∷ s)) ]

-- One line break in front is skipped.
unfoldable pub read_hex : List ℕ → Option (ℕ × List ℕ)
read_hex [] = none
read_hex (b ∷ s) = if b == 10 then read_number s else read_number (b ∷ s)

digit_value-hex_digit : (d : ℕ) → d < 16 → digit_value (hex_digit d) ≡ some d
digit_value-hex_digit d h = ground arith

read_digits-hex_digits :
    (k n : ℕ) (s : List ℕ) → n < 16 ^ k → read_digits 0 (hex_digits k n ++ s) ≡ read_digits n s
read_digits-hex_digits zero n s h = let e : n ≡ 0 = omega arith in rw e refl
read_digits-hex_digits (suc k) n s h =
    let value : n / 16 * 16 + n % 16 ≡ n = omega arith in
    rw
      (
        append_assoc (hex_digits k (n / 16)) (hex_digit (n % 16) ∷ []) s,
        read_digits-hex_digits k (n / 16) (hex_digit (n % 16) ∷ s) (omega arith),
        digit_value-hex_digit (n % 16) (omega arith),
        read_digits,
        value,
      )
      refl

read_digits-le : (acc : ℕ) (s : List ℕ) → length (read_digits acc s).1 ≤ length s
read_digits-le acc [] = omega arith
read_digits-le acc (b ∷ s) = elim (Option-cases (digit_value b)) [
  | inl e ↦ rw (e, read_digits) (omega arith)
  | inr (d, e) ↦ rw (e, read_digits) (omega (arith, read_digits-le (acc * 16 + d) s))
]

read_number-lt : (s : List ℕ) (p : ℕ × List ℕ) → read_number s ≡ some p → length p.1 < length s
unfolding read_number
read_number-lt [] p e = cc
read_number-lt (b ∷ s) p e = elim (Option-cases (digit_value b)) [
  | inl none_there ↦ let z = (rw (none_there, read_number) at e) in cc
  | inr (d, is) ↦
      let z = some-injective _ _ (rw (is, read_number, is, read_digits) at e) in
      rw (← z) (omega (arith, read_digits-le (0 * 16 + d) s))
]

pub read_hex-Shortens : Shortens read_hex
unfolding read_hex
read_hex-Shortens [] p e = cc
read_hex-Shortens (b ∷ s) p e = elim (Bool-cases (b == 10)) [
  | inl line ↦ omega (arith, read_number-lt s p (rw (line, read_hex) at e))
  | inr other ↦ omega (arith, read_number-lt (b ∷ s) p (rw (other, read_hex) at e))
]

first_digit :
    (k n : ℕ) (s : List ℕ)
    → (d : ℕ) × (t : List ℕ) × (d < 16) × (hex_digits (suc k) n ++ s ≡ hex_digit d ∷ t)
first_digit zero n s = (n % 16, s, omega arith, refl)
first_digit (suc k) n s =
    let (d, t, lt, e) = first_digit k (n / 16) (hex_digit (n % 16) ∷ s) in
    (d, t, lt, append_assoc (hex_digits (suc k) (n / 16)) (hex_digit (n % 16) ∷ []) s ∙ e)

read_number-hex_digit :
    (d : ℕ) (t : List ℕ)
    → d < 16
    → read_number (hex_digit d ∷ t) ≡ some (read_digits 0 (hex_digit d ∷ t))
unfolding read_number
read_number-hex_digit d t h = rw (digit_value-hex_digit d h, read_number) refl

read_hex-hex_digit :
    (d : ℕ) (t : List ℕ) → d < 16 → read_hex (hex_digit d ∷ t) ≡ read_number (hex_digit d ∷ t)
unfolding read_hex
read_hex-hex_digit d t h =
    let z : (hex_digit d == 10) ≡ false = ground arith in rw (z, read_hex) refl

read_number-hex_digits :
    (k n : ℕ) (rest : List ℕ)
    → n < 16 ^ suc k
    → (read_number (hex_digits (suc k) n ++ (10 ∷ rest)) ≡ some (n, 10 ∷ rest))
      × (read_hex (hex_digits (suc k) n ++ (10 ∷ rest)) ≡ some (n, 10 ∷ rest))
read_number-hex_digits k n rest h =
    let (d, t, lt, e) = first_digit k n (10 ∷ rest) in
    let all : read_digits 0 (hex_digit d ∷ t) ≡ (n, 10 ∷ rest) =
      subst (λ l. read_digits 0 l ≡ (n, 10 ∷ rest)) e
        (read_digits-hex_digits (suc k) n (10 ∷ rest) h) in
    let number = read_number-hex_digit d t lt ∙ ap some all in
    (
      subst (λ l. read_number l ≡ some (n, 10 ∷ rest)) (sym e) number,
      subst (λ l. read_hex l ≡ some (n, 10 ∷ rest)) (sym e) (read_hex-hex_digit d t lt ∙ number),
    )

read_hex-ReadsLines : ReadsLines read_hex
unfolding read_hex read_number
read_hex-ReadsLines = record {
  first = λ w rest h. (read_number-hex_digits 15 w rest (omega arith)).1;
  later = λ w rest h. (read_number-hex_digits 15 w rest (omega arith)).0;
  at_end = refl;
  empty = refl;
}

-- Two words
abbrev pub some_words : List ℕ
some_words = 255 ∷ 4096 ∷ []

pub some_words-AreWords : AreWords some_words
some_words-AreWords = AreWords.word (omega arith) (AreWords.word (omega arith) AreWords.no_words)

file_bin_to_hex-hex_lines_example :
    file_bin_to_hex (some (words_bytes some_words)) true true
    ≡ some (true, some (hex_lines true some_words))
file_bin_to_hex-hex_lines_example = file_bin_to_hex-hex_lines true some_words some_words-AreWords

file_hex_to_bin-file_bin_to_hex_example :
    (text : List ℕ) × (file_bin_to_hex (some (words_bytes some_words)) true false
      ≡ some (true, some text))
    × (file_hex_to_bin read_hex (some text) true ≡ some (true, some (words_bytes some_words)))
file_hex_to_bin-file_bin_to_hex_example =
    file_hex_to_bin-file_bin_to_hex read_hex read_hex-ReadsLines some_words some_words-AreWords

-- "1f", a line break and "2"
abbrev pub some_text : List ℕ
some_text = b'1' ∷ b'f' ∷ 10 ∷ b'2' ∷ []

file_hex_to_ds8-file_hex_to_bin_example :
    (ws : List ℕ) × WordsOf read_hex some_text ws
    × (file_hex_to_bin read_hex (some some_text) true ≡ some (true, some (words_bytes ws)))
    × ((out : List ℕ) × (file_hex_to_ds8 read_hex (some some_text) true 32 ≡ some (true, some out))
        × (file_ds8_to_bin (some out) true ≡ some (true, some (words_bytes ws))))
file_hex_to_ds8-file_hex_to_bin_example =
    file_hex_to_ds8-file_hex_to_bin read_hex some_text 32 read_hex-Shortens (omega arith)
      (omega arith)
