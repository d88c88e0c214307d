-- ===== src/Bytes.antt =====
-- Bytes and 64-bit words in memory: `uInt64ToChar8` and `char8ToUint64` of src/tcpclient.cpp, on a
-- little-endian host. A byte is a number below 256.
pub mod Laws
use ossim_tcp_client.Prelude.{
  ℕ, zero, suc, ◌+◌, ◌-◌, ◌*◌, ◌/◌, ◌%◌, ◌≤◌, ◌<◌, List, [], ◌∷◌, ◌++◌, length, take, drop, Bool,
  true, false, Option, none, some, leb, if◌then◌else◌,
}

-- The `k` low bytes of a number, lowest first.
unfoldable pub le_bytes : ℕ → ℕ → List ℕ
le_bytes zero n = []
le_bytes (suc k) n = (n % 256) ∷ le_bytes k (n / 256)

-- The number that bytes stand for, lowest first.
unfoldable pub of_le : List ℕ → ℕ
of_le [] = 0
of_le (b ∷ bs) = b + 256 * of_le bs

-- `memcpy(char8buf, &i64, sizeof(i64))`
unfoldable pub u_int64_to_char8 : ℕ → List ℕ
u_int64_to_char8 i64 = le_bytes 8 i64

-- `memcpy(&i64, char8buf, sizeof(i64))`
unfoldable pub char8_to_uint64 : List ℕ → ℕ
char8_to_uint64 char8buf = of_le (take 8 char8buf)

-- `buf[i]` of an array of 64-bit words that is kept as bytes; `none` past its end.
unfoldable pub word_at? : List ℕ → ℕ → Option ℕ
unfolding char8_to_uint64
word_at? buf i =
    if leb (8 * i + 8) (length buf) then some (char8_to_uint64 (drop (8 * i) buf)) else none

-- `n` bytes from offset `off`; `none` where that passes the end.
unfoldable pub read_at? : List ℕ → ℕ → ℕ → Option (List ℕ)
read_at? buf off n = if leb (off + n) (length buf) then some (take n (drop off buf)) else none

-- The bytes `bs` written at offset `off`; `none` where that passes the end.
unfoldable pub write_at? : List ℕ → ℕ → List ℕ → Option (List ℕ)
write_at? buf off bs =
    if leb (off + length bs) (length buf)
    then some (take off buf ++ (bs ++ drop (off + length bs) buf))
    else none
