-- ===== src/Examples/Ds8.antt =====
-- The theorems on ds8 files at concrete inputs.
use ossim_tcp_client.Prelude.{
  ℕ, ◌≡◌, ◌<◌, ◌≤◌, ◌%◌, ◌+◌, List, some, true, replicate, arith, min, max,
}
use ossim_tcp_client.Convertors.Ds8.{
  bin_to_ds8, file_bin_to_ds8, file_ds8_to_bin, normalize_buf_size,
}
use ossim_tcp_client.Convertors.Ds8.Frames.{IsDs8, bin_to_ds8-IsDs8}
use ossim_tcp_client.Convertors.Ds8.Header.{normalize_buf_size_bounds}
use ossim_tcp_client.Convertors.Ds8.RoundTrip.{file_ds8_to_bin-file_bin_to_ds8}

-- Twenty bytes: with blocks of 32 bytes, a full frame and one with four bytes
abbrev some_file : List ℕ
some_file = replicate 20 7

file_ds8_to_bin-file_bin_to_ds8_example :
    (out : List ℕ) × (file_bin_to_ds8 (some some_file) true 32 ≡ some (true, some out))
    × (file_ds8_to_bin (some out) true ≡ some (true, some some_file))
file_ds8_to_bin-file_bin_to_ds8_example =
    file_ds8_to_bin-file_bin_to_ds8 some_file 32 (omega arith) (omega arith)

bin_to_ds8-IsDs8_example :
    (out : List ℕ) × (bin_to_ds8 some_file 32 ≡ some out) × IsDs8 32 some_file out
bin_to_ds8-IsDs8_example = bin_to_ds8-IsDs8 some_file 32 (omega arith)

normalize_buf_size_bounds_example :
    (normalize_buf_size 300 % 128 ≡ 0)
    × (128 ≤ normalize_buf_size 300)
    × (normalize_buf_size 300 ≤ 65536)
    × (min 65536 300 ≤ normalize_buf_size 300)
    × (normalize_buf_size 300 < max 128 300 + 128)
normalize_buf_size_bounds_example = normalize_buf_size_bounds 300
