-- ===== src/Runtime/Time.antt =====
-- `time.Time` as the number of nanoseconds since the zero time (year 1, UTC), and `time.Duration`
-- as an integer number of nanoseconds. No timestamp of the services lies before the zero time:
-- `add_days` and `add` stop there.
use promo_collection.Prelude.{
  ℕ, suc, ◌+◌, ◌-◌, ◌*◌, ◌/◌, Bool, ℤ, pos, negsuc, ltb, leb, ◌==◌, min, if◌then◌else◌, ◌^◌,
}

abbrev pub Time : Type 0
Time = ℕ

-- `time.Time{}`
abbrev pub zero_time : Time
zero_time = 0

abbrev pub is_zero : Time → Bool
is_zero t = t == 0

-- `t.Before(u)` and `t.After(u)`
abbrev pub before : Time → Time → Bool
before t u = ltb t u

abbrev pub after : Time → Time → Bool
after t u = ltb u t

abbrev pub second : ℕ
second = 1_000_000_000

abbrev pub hour : ℕ
hour = 3600 * second

abbrev pub day : ℕ
day = 24 * hour

abbrev shift : Time → ℕ → ℤ → Time
shift t unit (pos n) = t + n * unit
shift t unit (negsuc n) = t - suc n * unit

-- `t.AddDate(0, 0, n)` in UTC.
unfoldable pub add_days : Time → ℤ → Time
add_days t n = shift t day n

-- `t.Add(time.Duration(n) * time.Hour)`
unfoldable pub add_hours : Time → ℤ → Time
add_hours t n = shift t hour n

-- The longest `time.Duration`.
abbrev pub max_duration : ℕ
max_duration = 2 ^ 63 - 1

-- `int32(t.Sub(u).Hours() / 24)`: whole days, rounded to zero. `Sub` stops at the longest
-- duration, so the days fit an `int32`.
unfoldable pub days_between : Time → Time → ℤ
days_between t u =
    if leb u t
    then pos (min (t - u) max_duration / day)
    else negated (min (u - t) max_duration / day)
  where
    negated : ℕ → ℤ
    negated n = if n == 0 then pos 0 else negsuc (n - 1)
