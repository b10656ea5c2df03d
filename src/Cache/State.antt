-- ===== src/Cache/State.antt =====
-- internal/cache/value_state.go: the state retained for one item and its times.
pub mod Times
use zabbix_exporter.Prelude.{
  ℕ, ◌+◌, ◌*◌, ◌/◌, String, Bool, ◌&&◌, ◌||◌, ltb, leb, ◌==◌, if◌then◌else◌,
}
use zabbix_exporter.Time.{Time, Duration, second, minute, add, unix}

abbrev pub long_cycle_threshold : Duration
long_cycle_threshold = minute

pub data PublishPolicy : Type 0 where
  source_timestamp cycle_timestamp : PublishPolicy

-- `value` is the bit pattern of the float64. `source_ns` and the seconds of `source_timestamp`
-- are those of the source point.
pub record ValueState : Type 0 where
  pub item_id : String
  pub value : ℕ
  pub source_time : Time
  pub source_ns : ℕ
  pub last_fetch_at : Time
  pub last_success_at : Time
  pub delay : Duration
  pub expire_at : Time
  pub consecutive_misses : ℕ
  pub metadata_version : ℕ
  pub value_version : ℕ
  pub last_published_version : ℕ
  pub last_published_time : Time
  pub publish_slot : ℕ
  pub publish_policy : PublishPolicy
  pub valid : Bool
  pub scan_sequence : ℕ

unfoldable pub publish_policy_for_delay : Duration → PublishPolicy
publish_policy_for_delay delay =
    if ltb long_cycle_threshold delay
    then PublishPolicy.cycle_timestamp
    else PublishPolicy.source_timestamp

-- `max(delay / 5, 30s)`.
unfoldable pub grace_for : Duration → Duration
grace_for delay = if ltb (delay / 5) (30 * second) then 30 * second else delay / 5

unfoldable pub value_expire_at : Time → Duration → Time
unfolding publish_policy_for_delay grace_for
value_expire_at source delay = elim (publish_policy_for_delay delay) [
  | PublishPolicy.source_timestamp ↦
      add source (if ltb (2 * delay) (90 * second) then 90 * second else 2 * delay)
  | PublishPolicy.cycle_timestamp ↦ add source (2 * delay + grace_for delay)
]

unfoldable pub miss_invalid_after : Time → Duration → Time
unfolding grace_for
miss_invalid_after source delay = add source (delay + grace_for delay)

unfoldable pub source_is_newer : ℕ → ℕ → ValueState → Bool
source_is_newer clock ns current =
    let current_clock = unix current.source_time in
    ltb current_clock clock || (clock == current_clock && ltb current.source_ns ns)

-- PublishPolicy.String().
unfoldable pub publish_policy_name : PublishPolicy → String
publish_policy_name PublishPolicy.source_timestamp = "source_timestamp"
publish_policy_name PublishPolicy.cycle_timestamp = "cycle_timestamp"
