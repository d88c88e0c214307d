-- ===== src/Frames.antt =====
-- The wire format, as an independent description: a stream of data is cut into frames of one size, and
-- the frames are dealt out to the sockets in turn. `send_to_tcp_io` (src/tcpclient.cpp) produces it
-- and `receive_tcp_io` reads it.
use ossim_tcp_client.Prelude.{
  ℕ, ◌+◌, ◌^◌, ◌<◌, ◌≡◌, refl, append_assoc, List, [], ◌∷◌, ◌++◌, Option, none, some, ◌==◌,
  if◌then◌else◌, length, get_elem?, arith, length-append,
}
use ossim_tcp_client.Bytes.{u_int64_to_char8, word_at?, read_at?}
use ossim_tcp_client.Bytes.Laws.{
  length-u_int64_to_char8, word_at?-first, word_at?-append, read_at?-append,
}
use ossim_tcp_client.Protocol.DataTypes
use ossim_tcp_client.Client.Send.{next_socket}

-- A frame: the number of data bytes, the data tag, the data, and a tail that means nothing.
abbrev pub frame : List ℕ → List ℕ → List ℕ
frame chunk tail =
    u_int64_to_char8 (length chunk) ++ (u_int64_to_char8 DataTypes.data_block ++ (chunk ++ tail))

-- `fs` are frames of `room` bytes behind their headers, and they carry exactly `bs`: all are full but
-- the last one.
pub data FramesOf (room : ℕ) : List ℕ → List (List ℕ) → Type 0 where
  last :
      {bs f : List ℕ} (tail : List ℕ)
      → length bs + length tail ≡ room
      → f ≡ frame bs tail
      → FramesOf room bs (f ∷ [])
  more :
      {bs f : List ℕ} {fs : List (List ℕ)} (chunk rest : List ℕ)
      → bs ≡ chunk ++ rest
      → length chunk ≡ room
      → 0 < length rest
      → f ≡ frame chunk []
      → FramesOf room rest fs
      → FramesOf room bs (f ∷ fs)

-- What socket `u` gets of a frame that goes to the socket `t?`.
abbrev pub share : Option ℕ → List ℕ → ℕ → List ℕ
share none f u = []
share (some t) f u = if u == t then f else []

-- What socket `u` gets of `fs`, dealt out in turn from the socket at index `i` on.
abbrev pub dealt : List ℕ → ℕ → List (List ℕ) → ℕ → List ℕ
dealt socks i [] u = []
dealt socks i (f ∷ fs) u =
    share (get_elem? socks i) f u ++ dealt socks (next_socket i (length socks)) fs u

-- The index of the socket whose turn it is behind `fs`
abbrev pub turn_after : List (List ℕ) → ℕ → ℕ → ℕ
turn_after [] i n = i
turn_after (f ∷ fs) i n = turn_after fs (next_socket i n) n

pub dealt-append :
    (socks : List ℕ) (i : ℕ) (fs gs : List (List ℕ)) (u : ℕ)
    → dealt socks i (fs ++ gs) u
      ≡ dealt socks i fs u ++ dealt socks (turn_after fs i (length socks)) gs u
dealt-append socks i [] gs u = refl
dealt-append socks i (f ∷ fs) gs u =
    rw
      (
        dealt-append socks (next_socket i (length socks)) fs gs u,
        append_assoc (share (get_elem? socks i) f u),
      )
      refl

pub turn_after-append :
    (fs gs : List (List ℕ)) (i n : ℕ)
    → turn_after (fs ++ gs) i n ≡ turn_after gs (turn_after fs i n) n
turn_after-append [] gs i n = refl
turn_after-append (f ∷ fs) gs i n = turn_after-append fs gs (next_socket i n) n

pub length-frame :
    (chunk tail : List ℕ) → length (frame chunk tail) ≡ 16 + (length chunk + length tail)
length-frame chunk tail = omega (
  arith,
  length-append (u_int64_to_char8 (length chunk))
      (u_int64_to_char8 DataTypes.data_block ++ (chunk ++ tail)),
  length-append (u_int64_to_char8 DataTypes.data_block) (chunk ++ tail),
  length-append chunk tail,
  length-u_int64_to_char8 (length chunk),
  length-u_int64_to_char8 DataTypes.data_block,
)

-- The parts of a frame, as a receiver reads them
pub frame-word0 :
    (chunk tail : List ℕ)
    → length chunk < 2 ^ 64
    → word_at? (frame chunk tail) 0 ≡ some (length chunk)
frame-word0 chunk tail h = word_at?-first (length chunk) _ h

pub frame-word1 : (chunk tail : List ℕ) → word_at? (frame chunk tail) 1 ≡ some DataTypes.data_block
frame-word1 chunk tail =
    word_at?-append 1 DataTypes.data_block (u_int64_to_char8 (length chunk)) (chunk ++ tail)
      (length-u_int64_to_char8 (length chunk)) (omega arith)

pub frame-body : (chunk tail : List ℕ) → read_at? (frame chunk tail) 16 (length chunk) ≡ some chunk
frame-body chunk tail =
    let header : List ℕ =
      u_int64_to_char8 (length chunk) ++ u_int64_to_char8 DataTypes.data_block in
    rw
      (← append_assoc (u_int64_to_char8 (length chunk)) (u_int64_to_char8 DataTypes.data_block)
        (chunk ++ tail))
      (read_at?-append 16 (length chunk) header chunk tail
        (omega (
          arith,
          length-append (u_int64_to_char8 (length chunk)) (u_int64_to_char8 DataTypes.data_block),
          length-u_int64_to_char8 (length chunk),
          length-u_int64_to_char8 DataTypes.data_block,
        ))
        refl)

pub frame-append :
    (chunk tail rest : List ℕ) → frame chunk tail ++ rest ≡ frame chunk (tail ++ rest)
frame-append chunk tail rest = rw (
  append_assoc (u_int64_to_char8 (length chunk)) _ rest,
  append_assoc (u_int64_to_char8 DataTypes.data_block) (chunk ++ tail) rest,
  append_assoc chunk tail rest,
)

-- The frames of a stream in one file, one behind the other
abbrev pub joined : List (List ℕ) → List ℕ
joined [] = []
joined (f ∷ fs) = f ++ joined fs
