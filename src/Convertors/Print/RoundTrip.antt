-- ===== src/Convertors/Print/RoundTrip.antt =====
-- `file_hex_to_bin` (src/tcpclientapp.cpp) reads what `file_bin_to_hex` writes.
use ossim_tcp_client.Prelude.{
  ℕ, ◌+◌, ◌^◌, ◌<◌, ◌≡◌, refl, List, [], ◌∷◌, ◌++◌, Option, none, some, true, false, length, arith,
  append_assoc, length-append,
}
use ossim_tcp_client.Convertors.Ds8.{◌>>=◌}
use ossim_tcp_client.Convertors.Hex.{words_bytes, file_hex_to_bin}
use ossim_tcp_client.Convertors.Hex.Words.{WordsOf, hex_bin_loop-WordsOf}
use ossim_tcp_client.Convertors.Print.{hex_line, hex_digits, file_bin_to_hex}
use ossim_tcp_client.Convertors.Print.Lines.{hex_lines, AreWords, file_bin_to_hex-hex_lines}

-- What the standard says of `>> std::hex` on lines of 16 digits: the white space in front of a number
-- is skipped, the number is the value of its digits and ends in front of the next character, and
-- where nothing is left the extraction fails.
pub record ReadsLines (extract : List ℕ → Option (ℕ × List ℕ)) : Type 0 where
  pub first :
      (w : ℕ) (rest : List ℕ)
      → w < 2 ^ 64
      → extract (hex_digits 16 w ++ (10 ∷ rest)) ≡ some (w, 10 ∷ rest)
  pub later :
      (w : ℕ) (rest : List ℕ)
      → w < 2 ^ 64
      → extract (10 ∷ (hex_digits 16 w ++ (10 ∷ rest))) ≡ some (w, 10 ∷ rest)
  pub at_end : extract (10 ∷ []) ≡ none
  pub empty : extract [] ≡ none

module _ (extract : List ℕ → Option (ℕ × List ℕ)) (law : ReadsLines extract) where
  later_words : (ws : List ℕ) → AreWords ws → WordsOf extract (10 ∷ hex_lines false ws) ws
  later_words [] a = WordsOf.stop law.at_end
  later_words (w ∷ ws) (AreWords.word h a) =
      rw (append_assoc (hex_digits 16 w) (10 ∷ []) (hex_lines false ws)) (
        WordsOf.next (w, 10 ∷ hex_lines false ws) (law.later w (hex_lines false ws) h)
          (later_words ws a))

  hex_lines-WordsOf : (ws : List ℕ) → AreWords ws → WordsOf extract (hex_lines false ws) ws
  hex_lines-WordsOf [] a = WordsOf.stop law.empty
  hex_lines-WordsOf (w ∷ ws) (AreWords.word h a) =
      rw (append_assoc (hex_digits 16 w) (10 ∷ []) (hex_lines false ws)) (
        WordsOf.next (w, 10 ∷ hex_lines false ws) (law.first w (hex_lines false ws) h)
          (later_words ws a))

  -- A line is longer than its word is in memory, so the rounds suffice.
  length-hex_lines : (ws : List ℕ) → length ws < length (hex_lines false ws) + 1
  length-hex_lines [] = omega arith
  length-hex_lines (w ∷ ws) =
      omega (arith, length-append (hex_line false w) (hex_lines false ws), length-hex_lines ws)

  -- Where the extraction reads lines of 16 digits as in ReadsLines, a file of 64-bit words that was
  -- converted to hex without tag and back is what it was.
  pub file_hex_to_bin-file_bin_to_hex :
      (ws : List ℕ)
      → AreWords ws
      → (text : List ℕ) × (file_bin_to_hex (some (words_bytes ws)) true false
          ≡ some (true, some text))
        × (file_hex_to_bin extract (some text) true ≡ some (true, some (words_bytes ws)))
  unfolding file_hex_to_bin
  file_hex_to_bin-file_bin_to_hex ws a = (
    hex_lines false ws,
    file_bin_to_hex-hex_lines false ws a,
    rw
        (
          hex_bin_loop-WordsOf extract (length (hex_lines false ws) + 1) (hex_lines false ws) ws
              (hex_lines-WordsOf ws a) (length-hex_lines ws),
          ◌>>=◌,
        )
        refl,
  )
