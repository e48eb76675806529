-- ===== src/Common/Words.antt =====
-- Go's 64-bit `int`, `int64` and `uint64`: a number below 2 ^ 64 stands for its bit pattern.
use nyxora.Common.Panics.{Outcome, done, panic}
use nyxora.Common.Tests.{◌==◌, ltb, leb, if◌then◌else◌}
use Prim.Native.Nat.{ℕ, ◌+◌, ◌-◌, ◌*◌, ◌/◌, ◌%◌, ◌^◌, ◌≤◌, ◌<◌}
use mathlib.Core.Path.{◌≡◌}
use mathlib.Core.Bool.{Bool, false}
use native.Mathlib.Omega.{arith}
use native.Mathlib.Nat.{mod-lt}

unfoldable pub add_int : ℕ → ℕ → ℕ
add_int a b = (a + b) % 2 ^ 64

unfoldable pub neg_int : ℕ → ℕ
neg_int a = (2 ^ 64 - a) % 2 ^ 64

unfoldable pub mul_int : ℕ → ℕ → ℕ
mul_int a b = (a * b) % 2 ^ 64

unfoldable pub is_negative : ℕ → Bool
is_negative a = leb (2 ^ 63) a

-- `a < b` on signed integers: the patterns with the sign bit flipped compare as numbers.
unfoldable pub lt_int : ℕ → ℕ → Bool
lt_int a b = ltb ((a + 2 ^ 63) % 2 ^ 64) ((b + 2 ^ 63) % 2 ^ 64)

-- The time a `time.Duration` after another, where a duration is a signed integer. A time is the
-- number of nanoseconds since a moment before all readings of the clock, and every time before that
-- moment is 0.
unfoldable pub add_duration : ℕ → ℕ → ℕ
unfolding neg_int is_negative
add_duration t d = if is_negative d then t - neg_int d else t + d

unfoldable pub magnitude : ℕ → ℕ
unfolding neg_int is_negative
magnitude a = if is_negative a then neg_int a else a

-- `a % b` on signed integers has the sign of `a`; here for a positive `b`, such as a length.
unfoldable pub rem_int : ℕ → ℕ → ℕ
unfolding neg_int is_negative magnitude
rem_int a b = if is_negative a then neg_int (magnitude a % b) else a % b

-- `a / b` on signed integers rounds towards zero.
unfoldable pub div_int : ℕ → ℕ → ℕ
unfolding neg_int is_negative
div_int a b =
    if is_negative a
    then (if is_negative b then neg_int a / neg_int b else neg_int (neg_int a / b))
    else (if is_negative b then neg_int (a / neg_int b) else a / b)

module _ (a b : ℕ) where
  pub add_duration_small : b < 2 ^ 63 → add_duration a b ≡ a + b
  unfolding add_duration is_negative
  add_duration_small h = ground arith

  pub add_int_small : a + b < 2 ^ 64 → add_int a b ≡ a + b
  unfolding add_int
  add_int_small h = omega arith

  pub mul_int_small : a * b < 2 ^ 64 → mul_int a b ≡ a * b
  unfolding mul_int
  mul_int_small h = omega arith

  pub lt_int_small : a < 2 ^ 63 → b < 2 ^ 63 → lt_int a b ≡ ltb a b
  unfolding lt_int
  lt_int_small h k = ground arith

  pub lt_int_negative : a < 2 ^ 63 → 2 ^ 63 ≤ b → b < 2 ^ 64 → lt_int a b ≡ false
  unfolding lt_int
  lt_int_negative h k l = ground arith

  pub rem_int_small : a < 2 ^ 63 → rem_int a b ≡ a % b
  unfolding rem_int
  rem_int_small h = ground arith

  pub div_int_small : a < 2 ^ 63 → b < 2 ^ 63 → div_int a b ≡ a / b
  unfolding div_int
  div_int_small h k = ground arith

pub rem_int-lt : (a b : ℕ) → a < 2 ^ 63 → 0 < b → rem_int a b < b
rem_int-lt a b h k = rw (rem_int_small a b h) (mod-lt a k)

-- `a % b` for any `b`: the sign of `b` has no say, and a `b` of 0 panics.
abbrev pub checked_rem : ℕ → ℕ → Outcome ℕ
checked_rem a b = if b == 0 then panic else done (rem_int a (magnitude b))
