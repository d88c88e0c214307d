-- ===== src/Convertors/Ds8/Header.antt =====
-- The header of a ds8 file, and the sizes of its blocks.
use native.Mathlib.Nat.{mul-mod_right}
use ossim_tcp_client.Prelude.{
  ℕ, refl, false, ltb, ◌==◌, ◌*◌, ◌-◌, ◌+◌, ◌%◌, ◌^◌, ◌<◌, ◌≤◌, ◌≡◌, List, ◌++◌, some, length,
  arith, length-append, take-append, min, max,
}
use ossim_tcp_client.Bytes.{le_bytes}
use ossim_tcp_client.Bytes.Laws.{length-le_bytes, of_le-le_bytes}
use ossim_tcp_client.Protocol.{str_eq}
use ossim_tcp_client.Convertors.Ds8.{
  ds8_header_title, header_size, write_header, read_header, ds8_block_size, normalize_buf_size,
}

pub length-write_header : (n : ℕ) → length (write_header n) ≡ header_size
unfolding write_header
length-write_header n =
    omega (arith, length-append ds8_header_title (le_bytes 4 n), length-le_bytes 4 n)

-- The header that `write` makes is recognised by `read`, whatever follows it, and gives back the block
-- size, which is a 32-bit value.
pub read_header-write_header :
    (n : ℕ) (rest : List ℕ) → n < 2 ^ 32 → read_header (write_header n ++ rest) ≡ some n
unfolding write_header read_header str_eq
read_header-write_header n rest h =
    rw (take-append 4 (le_bytes 4 n) rest (length-le_bytes 4 n), of_le-le_bytes 4 n (omega arith))

-- The tests pass on whole blocks behind a header.
pub ds8_block_size-write_header :
    (n k : ℕ) (body : List ℕ)
    → 0 < n
    → n < 2 ^ 32
    → length body ≡ n * k
    → ds8_block_size (write_header n ++ body) ≡ some (some n)
unfolding ds8_block_size
ds8_block_size-write_header n k body lo hi e =
    let long : ltb (length (write_header n ++ body)) header_size ≡ false =
      ground (arith, length-append (write_header n) body, length-write_header n) in
    let nonzero : (n == 0) ≡ false = ground arith in
    let size : length (write_header n ++ body) - header_size ≡ n * k =
      omega (arith, length-append (write_header n) body, length-write_header n, e) in
    rw (ds8_block_size, long, read_header-write_header n body hi, nonzero, size, mul-mod_right n k)
      refl

-- A normalized size is a multiple of 128 between 128 and 65536. It is not below the size that was
-- wanted, nor 128 or more above it, but for what these limits ask.
pub normalize_buf_size_bounds :
    (n : ℕ)
    → (normalize_buf_size n % 128 ≡ 0)
      × (128 ≤ normalize_buf_size n)
      × (normalize_buf_size n ≤ 65536)
      × (min 65536 n ≤ normalize_buf_size n)
      × (normalize_buf_size n < max 128 n + 128)
unfolding normalize_buf_size
normalize_buf_size_bounds n = ground arith
