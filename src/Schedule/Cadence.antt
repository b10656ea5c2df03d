-- ===== src/Schedule/Cadence.antt =====
-- The arithmetic of internal/scheduler/scheduler.go: when a group runs next, and the retry delay.
-- Times lie between the years 1678 and 2262, where `UnixNano` is defined.
use zabbix_exporter.Prelude.{
  pow_pos, pow_suc, le_mul, ℕ, zero, suc, ◌+◌, ◌-◌, ◌*◌, ◌/◌, ◌%◌, ◌^◌, ◌≤◌, ◌<◌, ◌≡◌, refl, ap,
  ◌∙◌, ◌⊎◌, inl, inr, String, true, false, ltb, leb, ◌==◌, ◌||◌, if◌then◌else◌, Bool-cases, arith,
  ltb→lt,
}
use zabbix_exporter.Time.{
  add_small, Time, Duration, minute, hour, add, since, int64_mod, unix_epoch,
}
use zabbix_exporter.Schedule.{stable_offset}
use Prim.Native.Nat.{min}
use native.Mathlib.Nat.{mod-lt, div-add-mod, mod-eq_of_lt, mul-add-mod_self_left}

-- The remainder of `now.UnixNano()` that is not negative: the two branches of Go's `%`.
unfoldable pub nanos_remainder : Time → Duration → Duration
nanos_remainder now period =
    if leb unix_epoch now
    then (now - unix_epoch) % period
    else let r : ℕ = (unix_epoch - now) % period in if r == 0 then 0 else period - r

module _ (sum64 : String → ℕ) where
  unfoldable pub next_run_after : Time → String → Duration → Time
  unfolding nanos_remainder
  next_run_after now group_id period =
      if period == 0
      then now
      else let candidate : Time =
          (now - nanos_remainder now period) + stable_offset sum64 group_id period in
        if ltb now candidate then candidate else add candidate period

  unfoldable pub bootstrap_run_at : Time → String → Duration → Duration → Time
  bootstrap_run_at now group_id period spread =
      if spread == 0 || ltb period spread
      then add now (stable_offset sum64 group_id period)
      else add now (stable_offset sum64 group_id spread)

-- `missed` is a product of int64 values, which `add` wraps.
unfoldable pub advance_planned : Time → Duration → Time → Time
unfolding since
advance_planned planned period now =
    let next : Time = add planned period in
    if ltb now next then next else add next ((since now next / period + 1) * period)

unfoldable pub delay_bucket : Duration → String
delay_bucket delay =
    if leb delay minute
    then "le_1m"
    else if leb delay (5 * minute)
    then "le_5m"
    else if leb delay hour
    then "le_1h"
    else "gt_1h"

-- The loop, with `left` rounds before `i` is `failures`.
unfoldable pub retry_from : ℕ → Duration → Duration → Duration
retry_from zero maximum delay = delay
retry_from (suc left) maximum delay =
    let rest : Duration = retry_from left maximum ((delay * 2) % int64_mod) in
    if ltb delay maximum then (if ltb (maximum / 2) delay then maximum else rest) else delay

unfoldable pub retry_delay : Duration → Duration → ℕ → Duration
unfolding retry_from
retry_delay base maximum failures =
    if base == 0 || failures == 0
    then 0
    else let delay : Duration = retry_from (failures - 1) maximum base in
      if ltb maximum delay then maximum else delay

since_small : (t u : ℕ) → t - u < 2 ^ 63 → since t u ≡ t - u
unfolding since
since_small t u h = ground arith

round_up : (d q r p : ℕ) → p * q + r ≡ d → (q + 1) * p + r ≡ d + p
round_up d q r p h = grind arith

-- The time that follows a planned run: a multiple of the period after it, past `now`, and the first
-- such time.
abbrev pub IsNextRun : Time → Duration → Time → Time → Type 0
IsNextRun planned period now next =
    ((k : ℕ) × (next ≡ planned + (k + 1) * period))
    × ((now < next) × ((next ≤ now + period) ⊎ (next ≡ planned + period)))

-- With a positive period of less than 2 ^ 62 nanoseconds, and less than 2 ^ 62 nanoseconds after a
-- planned run, the run after it lies a whole number of periods after the planned one, is after
-- `now`, and is the first such time.
pub advance_planned-IsNextRun :
    (planned period now : ℕ)
    → 0 < period
    → period < 2 ^ 62
    → now < planned + 2 ^ 62
    → IsNextRun planned period now (advance_planned planned period now)
unfolding advance_planned
advance_planned-IsNextRun planned period now p small near =
    rw (add_small planned period (omega arith)) elim (Bool-cases (ltb now (planned + period))) [
      | inl t ↦ rw t ((0, omega arith), (ltb→lt now (planned + period) t, inr refl))
      | inr f ↦
          let late : planned + period ≤ now = ground arith in
          let d : ℕ = now - (planned + period) in
          let q : ℕ = d / period in
          let e = div-add-mod d period in
          let r = mod-lt d p in
          let jump = round_up d q (d % period) period e in
          rw f (
            rw (since_small now (planned + period) (omega arith)) (
              rw (add_small (planned + period) ((q + 1) * period) (omega arith))
                ((q + 1, grind arith), (omega arith, inl (omega arith)))))
    ]

offset_lt : (sum64 : String → ℕ) (id : String) (w : ℕ) → 0 < w → stable_offset sum64 id w < w
unfolding stable_offset
offset_lt sum64 id w h = ground (arith, mod-lt (sum64 id) h)

-- With a positive period of less than 2 ^ 63 nanoseconds, a new group first runs less than a period
-- after `now`.
pub bootstrap_run_at_within :
    (sum64 : String → ℕ) (now : ℕ) (group_id : String) (period spread : ℕ)
    → 0 < period
    → period < 2 ^ 63
    → (now ≤ bootstrap_run_at sum64 now group_id period spread)
      × (bootstrap_run_at sum64 now group_id period spread < now + period)
unfolding bootstrap_run_at
bootstrap_run_at_within sum64 now id period spread p small =
    elim (Bool-cases (spread == 0 || ltb period spread)) [
      | inl t ↦
          let o = offset_lt sum64 id period p in
          let sum = add_small now (stable_offset sum64 id period) (omega (arith, o)) in
          rw t (omega (arith, sum), omega (arith, sum, o))
      | inr f ↦
          let (some_spread, within) : (0 < spread) × (spread ≤ period) =
            (ground arith, ground arith) in
          let o = offset_lt sum64 id spread some_spread in
          let sum = add_small now (stable_offset sum64 id spread) (omega (arith, o)) in
          rw f (omega (arith, sum), omega (arith, sum, o))
    ]

residue : (p q o : ℕ) → o < p → (p * q + o) % p ≡ o
residue p q o h = mul-add-mod_self_left p q o ∙ mod-eq_of_lt h

at_offset : (t p q o : ℕ) → t ≡ unix_epoch + (p * q + o) → o < p → (t - unix_epoch) % p ≡ o
at_offset t p q o e h =
    let exact : t - unix_epoch ≡ p * q + o = omega arith in ap (λ x. x % p) exact ∙ residue p q o h

-- From 1970 on, with a positive period of less than 2 ^ 63 nanoseconds, the next run of a group is
-- after `now`, at most a period after it, and at the group's offset in a period counted from 1970.
pub next_run_after_offset :
    (sum64 : String → ℕ) (now : ℕ) (group_id : String) (period : ℕ)
    → unix_epoch ≤ now
    → 0 < period
    → period < 2 ^ 63
    → (now < next_run_after sum64 now group_id period)
      × ((next_run_after sum64 now group_id period ≤ now + period)
          × ((next_run_after sum64 now group_id period - unix_epoch) % period
              ≡ stable_offset sum64 group_id period))
unfolding next_run_after nanos_remainder
next_run_after_offset sum64 now id period late p small =
    let passed : ℕ = now - unix_epoch in
    let q : ℕ = passed / period in
    let o : ℕ = stable_offset sum64 id period in
    let within = offset_lt sum64 id period p in
    let e = div-add-mod passed period in
    let r = mod-lt passed p in
    let early : leb unix_epoch now ≡ true = ground arith in
    let some_period : (period == 0) ≡ false = ground arith in
    let at : (now - passed % period + o ≡ unix_epoch + (period * q + o)) = omega arith in
    rw some_period (
      rw early (elim (Bool-cases (ltb now (now - passed % period + o))) [
        | inl t ↦ rw t (
          ltb→lt now (now - passed % period + o) t,
          (omega arith, at_offset _ period q o at within),
        )
        | inr f ↦ rw f (
            rw (add_small (now - passed % period + o) period small)
              (omega arith, (ground arith, at_offset _ period (q + 1) o (grind arith) within)))
      ]))

retry_from-min :
    (left maximum delay : ℕ)
    → 0 < delay
    → maximum < 2 ^ 63
    → min (retry_from left maximum delay) maximum ≡ min (delay * 2 ^ left) maximum
unfolding retry_from
retry_from-min zero maximum delay p h = ground arith
retry_from-min (suc left) maximum delay p h =
    let half : ltb (maximum / 2) delay ≡ false → (delay * 2) % int64_mod ≡ 2 * delay =
      λ f. ground arith in
    elim (Bool-cases (ltb delay maximum)) [
      | inr f ↦ rw f (ground (arith, le_mul delay (2 ^ suc left) (pow_pos (suc left))))
      | inl t ↦ rw t elim (Bool-cases (ltb (maximum / 2) delay)) [
        | inl over ↦
            rw over
              (ground (arith, pow_suc delay left, le_mul (2 * delay) (2 ^ left) (pow_pos left)))
        | inr f ↦ rw f (
            rw (half f) (
              retry_from-min left maximum (2 * delay) (omega arith) h
              ∙ ap (λ x. min x maximum) (pow_suc delay left)))
      ]
    ]

-- With a positive base, not above the maximum, and a maximum of less than 2 ^ 63 nanoseconds, the
-- delay after failure number `n + 1` is the base doubled `n` times, or the maximum if that is less.
pub retry_delay-min :
    (base maximum n : ℕ)
    → 0 < base
    → maximum < 2 ^ 63
    → retry_delay base maximum (suc n) ≡ min (base * 2 ^ n) maximum
unfolding retry_delay
retry_delay-min base maximum n p h =
    let some_base : (base == 0) ≡ false = ground arith in
    let rounds : suc n - 1 ≡ n = omega arith in
    rw some_base (rw rounds (ground (arith, retry_from-min n maximum base p h)))
