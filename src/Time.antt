-- ===== src/Time.antt =====
-- `time.Time` and `time.Duration` as the program uses them.
use zabbix_exporter.Prelude.{
  ◌<◌, ◌≡◌, arith, ℕ, ◌+◌, ◌-◌, ◌*◌, ◌/◌, ◌%◌, ◌^◌, ltb, leb, if◌then◌else◌,
}

-- Nanoseconds since Go's zero time, 1 January of year 1, UTC.
abbrev pub Time : Type 0
Time = ℕ

-- An int64 count of nanoseconds, by its bit pattern; the durations of the program are not negative.
abbrev pub Duration : Type 0
Duration = ℕ

abbrev pub second : Duration
second = 1_000_000_000

abbrev pub millisecond : Duration
millisecond = 1_000_000

abbrev pub minute : Duration
minute = 60 * second

abbrev pub int64_mod : ℕ
int64_mod = 2 ^ 64

-- `t.Add(d)` for an int64 `d` that may have wrapped: a pattern from 2 ^ 63 on is negative.
unfoldable pub add : Time → Duration → Time
add t d =
    let wrapped : ℕ = d % int64_mod in
    if ltb wrapped (2 ^ 63) then t + wrapped else t - (int64_mod - wrapped)

-- `t.Unix()`, counted from the zero time: the program's value plus 62135596800.
abbrev pub unix : Time → ℕ
unix t = t / second

-- `t.Add(-d)`.
unfoldable pub back : Time → Duration → Time
back t d =
    let wrapped : ℕ = d % int64_mod in
    if leb wrapped (2 ^ 63) then t - wrapped else t + (int64_mod - wrapped)

-- `t.Sub(u)` for a time `u` that is not after `t`: Go stops at the greatest int64.
unfoldable pub since : Time → Time → Duration
since t u = if ltb (t - u) (2 ^ 63) then t - u else 2 ^ 63 - 1

abbrev pub hour : Duration
hour = 60 * minute

-- 1 January 1970, where `UnixNano` counts from.
abbrev pub unix_epoch : Time
unix_epoch = 62_135_596_800 * second

-- Without overflow, adding a duration adds it.
pub add_small : (t : Time) (d : Duration) → d < 2 ^ 63 → add t d ≡ t + d
unfolding add
add_small t d h = ground arith

-- `t.UnixMilli()` of a time from 1970 on.
abbrev pub unix_milli : Time → ℕ
unix_milli t = (t - unix_epoch) / millisecond
