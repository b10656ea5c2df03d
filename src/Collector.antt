-- ===== src/Collector.antt =====
-- internal/collector/group_collector.go: the configuration of a collector, the window of a query and
-- its limit. Delays are of two nanoseconds or more, so that the number of points expected of an item
-- stays an int64.
pub mod Query
pub mod Batches
use zabbix_exporter.Prelude.{
  ℕ, ◌+◌, ◌*◌, ◌/◌, ◌%◌, ◌<◌, ◌≤◌, ◌≡◌, refl, inl, inr, Bool, true, false, ◌&&◌, ◌||◌, not, ℤ, pos,
  negsuc, Option, none, some, Map, keep, ltb, leb, ◌==◌, if◌then◌else◌, length, arith, Bool-cases,
}
use zabbix_exporter.Time.{Time, Duration, second, minute, since}
use zabbix_exporter.Zabbix.History.{HistoryItem, HistoryQuery, BatchResult}
use zabbix_exporter.Cache.State.{value_expire_at}
use zabbix_exporter.Cache.Apply.{latest_of}

-- As it is given: an `int` or a `time.Duration` may be negative.
pub record HistorySettings : Type 0 where
  pub limit : ℤ
  pub max_split_depth : ℤ
  pub overlap_min : ℤ
  pub overlap_max : ℤ
  pub query_timeout : ℤ

pub record HistoryConfig : Type 0 where
  pub limit : ℕ
  pub max_split_depth : ℕ
  pub overlap_min : Duration
  pub overlap_max : Duration
  pub query_timeout : Duration

abbrev pub default_history_limit : ℕ
default_history_limit = 10_000

abbrev pub default_max_split_depth : ℕ
default_max_split_depth = 16

abbrev pub default_overlap_min : Duration
default_overlap_min = 5 * minute

abbrev pub default_overlap_max : Duration
default_overlap_max = 15 * minute

pub data CollectorError : Type 0 where
  no_reader no_values no_source limit_not_positive depth_not_positive : CollectorError
  invalid_overlap_range timeout_not_positive : CollectorError

pub data CollectorSetup : Type 0 where
  refused : CollectorError → CollectorSetup
  created : HistoryConfig → CollectorSetup

-- The value, or the default where it is 0; `none` where it is negative.
unfoldable pub with_default : ℕ → ℤ → Option ℕ
with_default standard (pos n) = some (if n == 0 then standard else n)
with_default standard (negsuc n) = none

unfoldable pub check_history : HistorySettings → CollectorSetup
unfolding with_default
check_history g = elim (with_default default_history_limit g.limit) [
  | none ↦ CollectorSetup.refused CollectorError.limit_not_positive
  | some limit' ↦ elim (with_default default_max_split_depth g.max_split_depth) [
    | none ↦ CollectorSetup.refused CollectorError.depth_not_positive
    | some depth ↦ elim (with_default default_overlap_min g.overlap_min) [
      | none ↦ CollectorSetup.refused CollectorError.invalid_overlap_range
      | some least ↦ elim (with_default default_overlap_max g.overlap_max) [
        | none ↦ CollectorSetup.refused CollectorError.invalid_overlap_range
        | some most ↦
            if ltb most least
            then CollectorSetup.refused CollectorError.invalid_overlap_range
            else elim (with_default (30 * second) g.query_timeout) [
              | none ↦ CollectorSetup.refused CollectorError.timeout_not_positive
              | some timeout ↦ CollectorSetup.created (record {
                limit = limit';
                max_split_depth = depth;
                overlap_min = least;
                overlap_max = most;
                query_timeout = timeout;
              })
            ]
      ]
    ]
  ]
]

unfoldable pub new_group_collector :
    (has_reader has_values has_source : Bool) → HistorySettings → CollectorSetup
unfolding check_history
new_group_collector has_reader has_values has_source g =
    if not has_reader
    then CollectorSetup.refused CollectorError.no_reader
    else if not has_values
    then CollectorSetup.refused CollectorError.no_values
    else if not has_source
    then CollectorSetup.refused CollectorError.no_source
    else check_history g

unfoldable pub overlap_for_delay : Duration → Duration → Duration → Duration
overlap_for_delay delay minimum maximum =
    let fifth : Duration = delay / 5 in
    let overlap : Duration = if ltb fifth minimum then minimum else fifth in
    if ltb 0 maximum && ltb maximum overlap then maximum else overlap

unfoldable pub bootstrap_window : Duration → Duration
bootstrap_window delay =
    if leb delay minute
    then if ltb (2 * delay) (5 * minute) then 5 * minute else 2 * delay
    else 2 * delay + (if ltb (delay / 5) (30 * second) then 30 * second else delay / 5)

-- The points of one item that a window can hold, two of them to spare.
unfoldable pub expected_per_item : Duration → Duration → ℕ
expected_per_item window delay = window / delay + (if window % delay == 0 then 0 else 1) + 2

unfoldable pub query_limit : HistoryConfig → HistoryQuery → Duration → ℕ
unfolding expected_per_item
query_limit config query delay =
    let items : ℕ = length query.item_ids in
    if delay == 0 || items == 0
    then config.limit
    else let expected : ℕ = expected_per_item (since query.time_till query.time_from) delay in
      let calculated : ℕ = if ltb (expected * items) 1 then 1 else expected * items in
      if leb config.limit expected || ltb (config.limit / items) expected
      then config.limit
      else if ltb config.limit calculated
      then config.limit
      else calculated

-- A point with nanoseconds out of range is left for ApplyBatch to reject.
unfoldable pub outlives : Duration → Time → HistoryItem → Bool
outlives delay till point = elim point.ns [
  | negsuc n ↦ true
  | pos ns ↦ leb second ns || ltb till (value_expire_at (point.clock * second + ns) delay)
]

unfoldable pub filter_expired_latest : BatchResult → Duration → Time → BatchResult
unfolding outlives
filter_expired_latest batch delay till = record batch {
  latest = some (keep (λ kv. outlives delay till kv.1) (latest_of batch));
}

-- With a positive configured limit, the limit of a query is positive and not above it.
pub query_limit_bounds :
    (config : HistoryConfig) (query : HistoryQuery) (delay : Duration)
    → 0 < config.limit
    → (0 < query_limit config query delay) × (query_limit config query delay ≤ config.limit)
unfolding query_limit
query_limit_bounds config query delay p = (ground arith, ground arith)
