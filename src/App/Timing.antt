-- ===== src/App/Timing.antt =====
-- class Timing (src/tcpclientapp.h, src/tcpclientapp.cpp) and the messages on the speed of a client. The clock
-- is given in nanoseconds; a text is what is printed in front of `std::endl`. Numbers of bytes are not
-- negative and stay far below 2 ^ 63.
use ossim_tcp_client.Prelude.{
  ℕ, ◌-◌, ◌*◌, ◌%◌, ◌^◌, List, [], ◌∷◌, ◌++◌, Option, none, some, Bool, true, false, ◌==◌,
  if◌then◌else◌,
}
use ossim_tcp_client.Client.Os.{Os}
use ossim_tcp_client.Client.Monad.{M, pure, ◌>>=◌}
use ossim_tcp_client.Client.Base.{
  get_bytes_sent, get_bytes_received, get_sent_time_ms, get_received_time_ms,
}
use ossim_tcp_client.App.Names.{replace_substr}
use ossim_tcp_client.App.Text.{num_to_string, to_freindly_string}

-- " is started at "
abbrev started_at : List ℕ
started_at =
    b' ' ∷ b'i' ∷ b's' ∷ b' ' ∷ b's' ∷ b't' ∷ b'a' ∷ b'r' ∷ b't' ∷ b'e' ∷ b'd' ∷ b' ' ∷ b'a' ∷ b't'
    ∷ b' ' ∷ []

-- " finished: "
abbrev finished : List ℕ
finished = b' ' ∷ b'f' ∷ b'i' ∷ b'n' ∷ b'i' ∷ b's' ∷ b'h' ∷ b'e' ∷ b'd' ∷ b':' ∷ b' ' ∷ []

-- " for "
abbrev behind_size : List ℕ
behind_size = b' ' ∷ b'f' ∷ b'o' ∷ b'r' ∷ b' ' ∷ []

-- " seconds ("
abbrev behind_seconds : List ℕ
behind_seconds = b' ' ∷ b's' ∷ b'e' ∷ b'c' ∷ b'o' ∷ b'n' ∷ b'd' ∷ b's' ∷ b' ' ∷ b'(' ∷ []

-- "/s)"
abbrev per_second : List ℕ
per_second = b'/' ∷ b's' ∷ b')' ∷ []

-- " ms. = "
abbrev ms_equals : List ℕ
ms_equals = b' ' ∷ b'm' ∷ b's' ∷ b'.' ∷ b' ' ∷ b'=' ∷ b' ' ∷ []

-- " sec. "
abbrev sec : List ℕ
sec = b' ' ∷ b's' ∷ b'e' ∷ b'c' ∷ b'.' ∷ b' ' ∷ []

-- "Network speed of sending: "
abbrev speed_of_sending : List ℕ
speed_of_sending =
    b'N' ∷ b'e' ∷ b't' ∷ b'w' ∷ b'o' ∷ b'r' ∷ b'k' ∷ b' ' ∷ b's' ∷ b'p' ∷ b'e' ∷ b'e' ∷ b'd' ∷ b' '
    ∷ b'o' ∷ b'f' ∷ b' ' ∷ b's' ∷ b'e' ∷ b'n' ∷ b'd' ∷ b'i' ∷ b'n' ∷ b'g' ∷ b':' ∷ b' ' ∷ []

-- "Network speed of receiving: "
abbrev speed_of_receiving : List ℕ
speed_of_receiving =
    b'N' ∷ b'e' ∷ b't' ∷ b'w' ∷ b'o' ∷ b'r' ∷ b'k' ∷ b' ' ∷ b's' ∷ b'p' ∷ b'e' ∷ b'e' ∷ b'd' ∷ b' '
    ∷ b'o' ∷ b'f' ∷ b' ' ∷ b'r' ∷ b'e' ∷ b'c' ∷ b'e' ∷ b'i' ∷ b'v' ∷ b'i' ∷ b'n' ∷ b'g' ∷ b':'
    ∷ b' ' ∷ []

pub record Timing : Type 0 where
  pub title : List ℕ
  pub t_start : ℕ
  pub is_out_result : Bool

-- `Timing::Timing` at a time of the clock, and what it prints; `date_time` is what `strftime` gives.
unfoldable pub new_timing : Option (List ℕ) → List ℕ → ℕ → Timing × Option (List ℕ)
new_timing date_time title now = (
  record { title = title; t_start = now; is_out_result = false },
  elim date_time [ none ↦ none | some date ↦ some (title ++ started_at ++ date) ],
)

-- `reStart`
unfoldable pub re_start : ℕ → Timing → Timing
re_start now tm = record tm { t_start = now }

-- `runTimesNano`
unfoldable pub run_times_nano : ℕ → Timing → ℕ
run_times_nano now tm = now - tm.t_start

-- A `double` is a fraction: `divide` is the quotient of two, `fixed` what `num_to_string` has of the stream,
-- and `general` what the stream writes of one without a format.
module _ (divide : ℕ × ℕ → ℕ × ℕ → ℕ × ℕ) (fixed general : ℕ → ℕ → List ℕ) where
  -- `t_value`, in milliseconds
  abbrev pub t_value : ℕ → Timing → ℕ × ℕ
  t_value now tm = divide (now - tm.t_start, 1) (1000000, 1)

  -- `outResultStr` with a number of bytes
  unfoldable pub out_result_bytes : ℕ → ℕ → Timing → Timing × List ℕ
  unfolding to_freindly_string replace_substr
  out_result_bytes now bytes tm =
      let t = t_value now tm in
      let seconds = divide t (1000, 1) in
      let speed = divide (bytes * 1000, 1) t in
      let bits =
        (replace_substr (to_freindly_string fixed (8 * speed.0) speed.1) (b'B' ∷ [])
          (b'b' ∷ b'i' ∷ b't' ∷ [])).1 in
      (
        record tm { is_out_result = true },
        tm.title
            ++ finished
            ++ to_freindly_string fixed bytes 1
            ++ behind_size
            ++ general seconds.0 seconds.1
            ++ behind_seconds
            ++ bits
            ++ per_second,
      )

  -- `outResultStr`
  unfoldable pub out_result : ℕ → Timing → Timing × List ℕ
  unfolding num_to_string
  out_result now tm =
      let t = t_value now tm in
      let seconds = divide t (1000, 1) in
      (
        record tm { is_out_result = true },
        tm.title
            ++ finished
            ++ num_to_string fixed t.0 t.1
            ++ ms_equals
            ++ num_to_string fixed seconds.0 seconds.1
            ++ sec,
      )

  -- `~Timing`: what it prints
  unfoldable pub close_timing : ℕ → Timing → Option (List ℕ)
  unfolding out_result
  close_timing now tm = if tm.is_out_result then none else some (out_result now tm).1

  -- A message for some bytes in some milliseconds: empty where no time has passed
  unfoldable pub speed_msg : List ℕ → ℕ → ℕ → List ℕ
  unfolding to_freindly_string
  speed_msg label bytes ms =
      if ms == 0
      then []
      else let speed = divide (bytes * 1000 % 2 ^ 64, 1) (ms, 1) in
        label ++ to_freindly_string fixed speed.0 speed.1 ++ (b'/' ∷ b's' ∷ [])

  module _ {W : Type 0} (os : Os W) where
    -- `get_send_speed_msg`
    unfoldable pub get_send_speed_msg : M W (List ℕ)
    unfolding speed_msg get_bytes_sent get_sent_time_ms
    get_send_speed_msg = get_sent_time_ms os >>= λ ms.
        get_bytes_sent os >>= λ bytes. pure (speed_msg speed_of_sending bytes ms)

    -- `get_receive_speed_msg`
    unfoldable pub get_receive_speed_msg : M W (List ℕ)
    unfolding speed_msg get_bytes_received get_received_time_ms
    get_receive_speed_msg = get_received_time_ms os >>= λ ms.
        get_bytes_received os >>= λ bytes. pure (speed_msg speed_of_receiving bytes ms)
