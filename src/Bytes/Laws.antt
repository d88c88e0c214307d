-- ===== src/Bytes/Laws.antt =====
-- Words survive the way through memory, and reads and writes of buffers meet.
use ossim_tcp_client.Prelude.{
  ℕ, zero, suc, ◌+◌, ◌*◌, ◌/◌, ◌^◌, ◌≤◌, ◌<◌, ◌≡◌, refl, sym, append_assoc, append-nil, ◌∙◌,
  drop-drop, drop-append_le, take-append_le, take-append-drop, List, [], ◌++◌, length, take, drop,
  some, arith, take-append, drop-append, le→leb, none, length-append,
}
use ossim_tcp_client.Bytes.{
  le_bytes, of_le, u_int64_to_char8, char8_to_uint64, word_at?, read_at?, write_at?,
}

pub length-le_bytes : (k n : ℕ) → length (le_bytes k n) ≡ k
unfolding le_bytes
length-le_bytes zero n = refl
length-le_bytes (suc k) n = omega (arith, length-le_bytes k (n / 256))

pub of_le-le_bytes : (k n : ℕ) → n < 256 ^ k → of_le (le_bytes k n) ≡ n
unfolding le_bytes of_le
of_le-le_bytes zero n h = omega arith
of_le-le_bytes (suc k) n h = omega (arith, of_le-le_bytes k (n / 256) (omega arith))

-- Eight bytes hold any 64-bit value.
pub char8_to_uint64-u_int64_to_char8 :
    (n : ℕ) (rest : List ℕ) → n < 2 ^ 64 → char8_to_uint64 (u_int64_to_char8 n ++ rest) ≡ n
unfolding char8_to_uint64 u_int64_to_char8
char8_to_uint64-u_int64_to_char8 n rest h =
    rw (take-append 8 (le_bytes 8 n) rest (length-le_bytes 8 n)) (of_le-le_bytes 8 n (omega arith))

pub length-u_int64_to_char8 : (n : ℕ) → length (u_int64_to_char8 n) ≡ 8
unfolding u_int64_to_char8
length-u_int64_to_char8 n = length-le_bytes 8 n

-- The word behind a prefix of whole words.
pub word_at?-append :
    (i n : ℕ) (front rest : List ℕ)
    → length front ≡ 8 * i
    → n < 2 ^ 64
    → word_at? (front ++ (u_int64_to_char8 n ++ rest)) i ≡ some n
unfolding word_at?
word_at?-append i n front rest e h = rw (
  drop-append (8 * i) front (u_int64_to_char8 n ++ rest) e,
  char8_to_uint64-u_int64_to_char8 n rest h,
  le→leb (8 * i + 8) (length (front ++ (u_int64_to_char8 n ++ rest))) (
      omega (
        arith,
        length-append front (u_int64_to_char8 n ++ rest),
        length-append (u_int64_to_char8 n) rest,
        length-u_int64_to_char8 n,
      )),
)

pub word_at?-first :
    (n : ℕ) (rest : List ℕ) → n < 2 ^ 64 → word_at? (u_int64_to_char8 n ++ rest) 0 ≡ some n
word_at?-first n rest h = word_at?-append 0 n [] rest refl h

-- Reading back what stands behind a prefix.
pub read_at?-append :
    (off n : ℕ) (front bs rest : List ℕ)
    → length front ≡ off
    → length bs ≡ n
    → read_at? (front ++ (bs ++ rest)) off n ≡ some bs
unfolding read_at?
read_at?-append off n front bs rest e f = rw (
  drop-append off front (bs ++ rest) e,
  take-append n bs rest f,
  le→leb (off + n) (length (front ++ (bs ++ rest)))
      (omega (arith, length-append front (bs ++ rest), length-append bs rest)),
)

pub read_at?-all : (bs : List ℕ) (n : ℕ) → length bs ≡ n → read_at? bs 0 n ≡ some bs
read_at?-all bs n e = rw (append-nil bs) at (read_at?-append 0 n [] bs [] refl e)

-- A write in bounds, and a write past the end.
pub write_at?-le :
    (buf : List ℕ) (off : ℕ) (bs : List ℕ)
    → off + length bs ≤ length buf
    → write_at? buf off bs ≡ some (take off buf ++ (bs ++ drop (off + length bs) buf))
unfolding write_at?
write_at?-le buf off bs h = rw (le→leb (off + length bs) (length buf) h)

pub write_at?-lt :
    (buf : List ℕ) (off : ℕ) (bs : List ℕ)
    → length buf < off + length bs
    → write_at? buf off bs ≡ none
unfolding write_at?
write_at?-lt buf off bs h = ground arith

pub write_at?-front :
    (buf bs : List ℕ) (n : ℕ)
    → length bs ≡ n
    → n ≤ length buf
    → write_at? buf 0 bs ≡ some (bs ++ drop n buf)
write_at?-front buf bs n e h =
    let z : 0 + length bs ≡ n = omega arith in rw (write_at?-le buf 0 bs (omega arith), z)

pub write_at?-append :
    (front tail bs : List ℕ) (n : ℕ)
    → length front ≡ n
    → length bs ≤ length tail
    → write_at? (front ++ tail) n bs ≡ some (front ++ (bs ++ drop (length bs) tail))
write_at?-append front tail bs n e h = rw (
  write_at?-le (front ++ tail) n bs (omega (arith, length-append front tail)),
  take-append n front tail e,
  ← drop-drop n (length bs) (n + length bs) (front ++ tail) refl,
  drop-append n front tail e,
)

-- Of two ways to cut one list, the shorter front is the beginning of the longer one.
pub shorter_front :
    (xs ys zs ws : List ℕ)
    → xs ++ ys ≡ zs ++ ws
    → length zs ≤ length xs
    → (zs ++ drop (length zs) xs ≡ xs) × (ws ≡ drop (length zs) xs ++ ys)
shorter_front xs ys zs ws e h = (
  rw (take_eq) at (take-append-drop (length zs) xs),
  sym (drop-append (length zs) zs ws refl) ∙ rw (← e) (drop-append_le (length zs) xs ys h),
)
  where
    take_eq : take (length zs) xs ≡ zs
    take_eq = sym (take-append_le (length zs) xs ys h) ∙ rw e (take-append (length zs) zs ws refl)

-- The third of three words in a row.
pub word_at?-third :
    (a b n : ℕ) (rest : List ℕ)
    → n < 2 ^ 64
    → word_at? (u_int64_to_char8 a ++ (u_int64_to_char8 b ++ (u_int64_to_char8 n ++ rest))) 2
      ≡ some n
word_at?-third a b n rest h =
    rw (← append_assoc (u_int64_to_char8 a) (u_int64_to_char8 b) (u_int64_to_char8 n ++ rest)) (
      word_at?-append 2 n (u_int64_to_char8 a ++ u_int64_to_char8 b) rest
        (omega (
          arith,
          length-append (u_int64_to_char8 a) (u_int64_to_char8 b),
          length-u_int64_to_char8 a,
          length-u_int64_to_char8 b,
        ))
        h)
