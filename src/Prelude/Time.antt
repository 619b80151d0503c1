-- ===== src/Prelude/Time.antt =====
-- Go's `time.Time` and `time.Duration`.
-- A time is the number of nanoseconds since the zero time (1 January of year 1), so `IsZero` is
-- `== 0`, `Before`, `After` and `Equal` are the order of numbers, and `UTC`, which changes how an
-- instant is shown and not the instant, is the identity. A duration is an int64 of nanoseconds.
use Prim.Native.Nat.{ℕ, suc, ◌+◌, ◌-◌, ◌*◌, ◌%◌}
use mathlib.Core.Bool.{Bool, true, false}
use control_center_stable.Prelude.Tests.{ltb, nat_eq, if◌then◌else◌}

abbrev pub Time : Type 0
Time = ℕ

abbrev pub is_zero : Time → Bool
is_zero t = nat_eq t 0

-- `a.Before(b)` and `a.After(b)`
abbrev pub before : Time → Time → Bool
before a b = ltb a b

abbrev pub after : Time → Time → Bool
after a b = ltb b a

-- `negsuc n` is -(n + 1).
pub data ℤ : Type 0 where
  pos : ℕ → ℤ
  negsuc : ℕ → ℤ

abbrev pub Duration : Type 0
Duration = ℤ

abbrev pub is_positive : Duration → Bool
is_positive (pos n) = ltb 0 n
is_positive (negsuc n) = false

-- `a > b`
abbrev pub exceeds : Duration → Duration → Bool
exceeds (pos a) (pos b) = ltb b a
exceeds (pos a) (negsuc b) = true
exceeds (negsuc a) (pos b) = false
exceeds (negsuc a) (negsuc b) = ltb a b

-- `t.Add(d)`
abbrev pub add : Time → Duration → Time
add t (pos n) = t + n
add t (negsuc n) = t - suc n

-- The int64 with the two's complement bit pattern `n % 2 ^ 64`.
abbrev pub to_int64 : ℕ → ℤ
to_int64 n =
    let m = n % 18446744073709551616 in
    if ltb m 9223372036854775808 then pos m else negsuc (18446744073709551615 - m)

-- `d * 2` on an int64, wrapping
abbrev pub double : Duration → Duration
double (pos n) = to_int64 (n * 2)
double (negsuc n) = to_int64 (36893488147419103232 - (suc n) * 2)

-- `v++` on a uint64, wrapping
abbrev pub next_u64 : ℕ → ℕ
next_u64 v = (v + 1) % 18446744073709551616

abbrev pub second : Duration
second = pos 1000000000

abbrev pub minute : ℕ
minute = 60000000000

abbrev pub hour : ℕ
hour = 3600000000000
