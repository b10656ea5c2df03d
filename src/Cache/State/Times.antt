-- ===== src/Cache/State/Times.antt =====
-- The times that value_state.go derives from a source point.
use zabbix_exporter.Prelude.{ℕ, ◌+◌, ◌*◌, ◌/◌, ◌^◌, ◌≤◌, ◌<◌, ◌≡◌, ◌↔◌, ◌⊎◌, true, arith}
use zabbix_exporter.Time.{add_small, Time, Duration, second, unix}
use zabbix_exporter.Cache.State.{
  ValueState, grace_for, value_expire_at, miss_invalid_after, source_is_newer,
}

pub grace_bounds :
    (d : Duration)
    → (30 * second ≤ grace_for d) × (d / 5 ≤ grace_for d) × (grace_for d ≤ 30 * second + d / 5)
unfolding grace_for
grace_bounds d = ground arith

-- For a delay below 2 ^ 61 nanoseconds, a value lives for at least twice the delay and at least
-- ninety seconds, and for no more than twice the delay, a fifth of it and ninety seconds.
pub value_expire_at_bounds :
    (t : Time) (d : Duration)
    → d < 2 ^ 61
    → (t + 2 * d ≤ value_expire_at t d)
      × (t + 90 * second ≤ value_expire_at t d)
      × (value_expire_at t d ≤ t + 2 * d + d / 5 + 90 * second)
unfolding value_expire_at
value_expire_at_bounds t d h = ground (
  arith,
  add_small t (90 * second),
  add_small t (2 * d),
  add_small t (2 * d + grace_for d),
  grace_bounds d,
)

-- For a delay below 2 ^ 61 nanoseconds, misses can invalidate a value no later than it expires.
pub miss-le-expire :
    (t : Time) (d : Duration) → d < 2 ^ 61 → miss_invalid_after t d ≤ value_expire_at t d
unfolding miss_invalid_after value_expire_at
miss-le-expire t d h = ground (
  arith,
  add_small t (d + grace_for d),
  add_small t (90 * second),
  add_small t (2 * d),
  add_small t (2 * d + grace_for d),
  grace_bounds d,
)

-- A point replaces a state of the same definition if and only if its second is later, or it is the
-- same second and its nanosecond is later.
pub source_is_newer_iff :
    (clock ns : ℕ) (s : ValueState)
    → (source_is_newer clock ns s ≡ true)
      ↔ ((unix s.source_time < clock) ⊎ ((clock ≡ unix s.source_time) × (s.source_ns < ns)))
unfolding source_is_newer
source_is_newer_iff clock ns s = ground arith
