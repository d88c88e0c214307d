-- ===== src/App/Names/Compare.antt =====
-- What `compareHexFiles` (src/tcpclientapp.cpp) compares
use ossim_tcp_client.Prelude.{
  ℕ, zero, suc, ◌<◌, ◌≤◌, ◌≡◌, refl, List, [], Option, some, Bool, ◌==◌, length, take, arith, inl,
  inr, Bool-cases,
}
use ossim_tcp_client.Protocol.{str_eq}
use ossim_tcp_client.Convertors.Hex.Words.{WordsOf, Shortens}
use ossim_tcp_client.App.Names.{compare_loop, compare_hex_files}

-- Two lists are the same as far as the shorter one goes.
abbrev pub agree : List ℕ → List ℕ → Bool
agree vs ws = str_eq (take (length ws) vs) (take (length vs) ws)

take-nil : (n : ℕ) → take {A = ℕ} n [] ≡ []
take-nil zero = refl
take-nil (suc n) = refl

module _ (extract : List ℕ → Option (ℕ × List ℕ)) where
  WordsOf-le :
      (ifs ws : List ℕ) → Shortens extract → WordsOf extract ifs ws → length ws ≤ length ifs
  WordsOf-le ifs _ sh (WordsOf.stop e) = omega arith
  WordsOf-le ifs _ sh (WordsOf.next {ws = ws} p e h) =
      omega (arith, sh ifs p e, WordsOf-le p.1 ws sh h)

  compare_loop-agree :
      (fuel : ℕ) (ifs1 ifs2 vs ws : List ℕ)
      → WordsOf extract ifs1 vs
      → WordsOf extract ifs2 ws
      → length vs < fuel
      → compare_loop extract fuel ifs1 ifs2 ≡ some (agree vs ws)
  unfolding compare_loop str_eq
  compare_loop-agree zero ifs1 ifs2 vs ws h k lt = absurd (omega arith)
  compare_loop-agree (suc fuel) ifs1 ifs2 _ ws (WordsOf.stop e) k lt =
      rw (e, compare_loop, take-nil (length ws)) refl
  compare_loop-agree (suc fuel) ifs1 ifs2 _ _ (WordsOf.next p e h) (WordsOf.stop f) lt =
      rw (e, compare_loop, f) refl
  compare_loop-agree (suc fuel) ifs1 ifs2 _ _ (WordsOf.next {ws = vs} p e h)
        (WordsOf.next {ws = ws} q f k) lt =
      elim (Bool-cases (p.0 == q.0)) [
        | inl same ↦
            rw (e, compare_loop, f, same, str_eq)
              (compare_loop-agree fuel p.1 q.1 vs ws h k (omega arith))
        | inr other ↦ rw (e, compare_loop, f, other, str_eq) refl
      ]

  -- Where an extraction that succeeds takes some of the file, `compareHexFiles` of two open files ends,
  -- and answers whether their words, up to the first failure, are the same as far as the shorter file
  -- goes.
  pub compare_hex_files-agree :
      (f1 f2 vs ws : List ℕ)
      → Shortens extract
      → WordsOf extract f1 vs
      → WordsOf extract f2 ws
      → compare_hex_files extract (some f1) (some f2) ≡ some (agree vs ws)
  unfolding compare_hex_files
  compare_hex_files-agree f1 f2 vs ws sh h k =
      compare_loop-agree (suc (length f1)) f1 f2 vs ws h k (omega (arith, WordsOf-le f1 vs sh h))
