-- ===== src/App/Send/Hex/Words.antt =====
-- The words that the inner loop of `sendHexFile` (src/tcpclientapp.cpp) takes of its input stream.
use ossim_tcp_client.Prelude.{
  ℕ, zero, suc, ◌≤◌, ◌≡◌, refl, ap, List, [], ◌∷◌, ◌++◌, Option, none, some, Bool, true, false,
  length, arith, inl, inr, ◌⊎◌,
}
use ossim_tcp_client.App.Send.{HexStream, take_words}

-- A stream from which every extraction has succeeded, in front of its end
abbrev pub good : List ℕ → HexStream
good rest = record { rest = rest; failed = false; eof = false }

module _ (extract : List ℕ → Option (ℕ × List ℕ)) (meets_end : List ℕ → Bool) where
  -- `ws` are all words of a file, and the end of the file is met no sooner than in the extraction of the
  -- last one, and no later than in the one that fails behind it.
  pub data AllWords : List ℕ → List ℕ → Type 0 where
    at_end : {ifs : List ℕ} → extract ifs ≡ none → meets_end ifs ≡ true → AllWords ifs []
    last_word :
        {ifs : List ℕ} (p : ℕ × List ℕ)
        → extract ifs ≡ some p
        → meets_end ifs ≡ true
        → AllWords ifs (p.0 ∷ [])
    next_word :
        {ifs ws : List ℕ} (p : ℕ × List ℕ)
        → extract ifs ≡ some p
        → meets_end ifs ≡ false
        → AllWords p.1 ws
        → AllWords ifs (p.0 ∷ ws)

  -- How the loop ends: with all words, at the end of the file, or with `count` of them.
  abbrev pub TakePost : ℕ → List ℕ → List ℕ × HexStream → Type 0
  TakePost count ws r =
      ((r.1.eof ≡ true) × (r.0 ≡ ws) × (length ws ≤ count))
      ⊎ ((rest : List ℕ) × (left : List ℕ) × (r.0 ++ left ≡ ws)
          × (length r.0 ≡ count)
          × (r.1 ≡ good rest)
          × AllWords rest left)

  take_words-eof :
      (count : ℕ) (rest : List ℕ)
      → let r =
          take_words extract meets_end count (record { rest = rest; failed = false; eof = true }) in
        (r.1.eof ≡ true) × (r.0 ≡ [])
  unfolding take_words
  take_words-eof zero rest = (refl, refl)
  take_words-eof (suc count) rest = (refl, refl)

  TakePost-cons :
      (count w : ℕ) (ws : List ℕ) (r : List ℕ × HexStream)
      → TakePost count ws r
      → TakePost (suc count) (w ∷ ws) (w ∷ r.0, r.1)
  TakePost-cons count w ws r (inl (e, same, le)) =
      inl (e, ap (λ (vs : List ℕ). w ∷ vs) same, omega arith)
  TakePost-cons count w ws r (inr (rest, left, same, len, going, words)) =
      inr (rest, left, ap (λ (vs : List ℕ). w ∷ vs) same, omega arith, going, words)

  pub take_words-TakePost :
      (count : ℕ) (rest ws : List ℕ)
      → AllWords rest ws
      → TakePost count ws (take_words extract meets_end count (good rest))
  unfolding take_words
  take_words-TakePost zero rest ws words = inr (rest, ws, refl, refl, refl, words)
  take_words-TakePost (suc count) rest _ (AllWords.at_end e m) =
      rw (e, take_words, m) (inl (refl, refl, omega arith))
  take_words-TakePost (suc count) rest _ (AllWords.last_word p e m) =
      let (ended, none_more) = take_words-eof count p.1 in
      rw (e, take_words, m) (inl (ended, ap (λ (vs : List ℕ). p.0 ∷ vs) none_more, omega arith))
  take_words-TakePost (suc count) rest _ (AllWords.next_word {ws = ws} p e m words) =
      rw (e, take_words, m)
        (TakePost-cons count p.0 ws (take_words extract meets_end count (good p.1))
          (take_words-TakePost count p.1 ws words))
