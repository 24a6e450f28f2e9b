-- ===== src/Domain/Clock.antt =====
-- The clocks of backend/internal/domain/util.go and RFC 3339 timestamps. A clock reading is in
-- nanoseconds; a timestamp that the program formats keeps whole seconds.
use interstellar_trade_platf.Base.{ℕ, ◌*◌, ◌/◌, Bool, true, false, Option, none, some, ltb, ◌==◌}

-- The text of a timestamp: empty, something that `time.Parse` refuses, or a time in UTC.
pub data Stamp : Type 0 where
  blank : Stamp
  garbled : ℕ → Stamp
  at : ℕ → Stamp

abbrev pub second : ℕ
second = 1000000000

-- `t.UTC().Format(time.RFC3339)`
abbrev pub format_time : ℕ → Stamp
format_time t = at (t / second)

-- `time.Parse(time.RFC3339, s)`; `none` is its error.
abbrev pub parse_time : Stamp → Option ℕ
parse_time blank = none
parse_time (garbled n) = none
parse_time (at s) = some (s * second)

-- `a.After(b)` and `a.Before(b)`
abbrev pub is_after : ℕ → ℕ → Bool
is_after a b = ltb b a

abbrev pub is_before : ℕ → ℕ → Bool
is_before a b = ltb a b

abbrev pub is_blank : Stamp → Bool
is_blank blank = true
is_blank (garbled n) = false
is_blank (at s) = false

-- Equality of two timestamps as strings.
abbrev pub stamp_eq : Stamp → Stamp → Bool
stamp_eq blank blank = true
stamp_eq (garbled m) (garbled n) = m == n
stamp_eq (at s) (at t) = s == t
stamp_eq _ _ = false
