-- ===== src/Schedule/State.antt =====
-- internal/scheduler/scheduler.go: the configuration of a scheduler, its state, and the replacement
-- of its groups after a change of the metadata. The heap holds the entries of the map, always all of
-- them between two operations, so that it is not kept beside the map.
use zabbix_exporter.Prelude.{
  ℕ, ◌*◌, ℤ, pos, negsuc, String, Bool, true, false, ◌&&◌, List, [], ◌∷◌, Option, none, some, Map,
  lookup, text_eq, ltb, ◌==◌, if◌then◌else◌,
}
use zabbix_exporter.Time.{Time, Duration, second, minute}
use zabbix_exporter.Schedule.{new_group_builder, default_batch_size}

-- The numbers as they are given: an `int` or a `time.Duration` may be negative.
pub record Settings : Type 0 where
  pub batch_size : ℤ
  pub worker_count : ℤ
  pub queue_capacity : ℤ
  pub retry_base : ℤ
  pub retry_max : ℤ
  pub bootstrap_spread : ℤ

pub record Config : Type 0 where
  pub batch_size : ℕ
  pub worker_count : ℕ
  pub queue_capacity : ℕ
  pub retry_base : Duration
  pub retry_max : Duration
  pub bootstrap_spread : Duration

abbrev pub default_worker_count : ℕ
default_worker_count = 4

abbrev pub default_queue_capacity : ℕ
default_queue_capacity = 128

abbrev pub default_retry_base : Duration
default_retry_base = 5 * second

abbrev pub default_retry_max : Duration
default_retry_max = 5 * minute

abbrev pub default_bootstrap_spread : Duration
default_bootstrap_spread = minute

pub data SetupError : Type 0 where
  no_executor worker_count_not_positive queue_capacity_not_positive invalid_retry_range : SetupError
  negative_spread negative_batch_size : SetupError

pub data Setup : Type 0 where
  refused : SetupError → Setup
  created : Config → Setup

unfoldable pub or_default : ℕ → ℤ → ℤ
or_default standard (pos n) = if n == 0 then pos standard else pos n
or_default standard (negsuc n) = negsuc n

-- `none` for a number below 1.
unfoldable pub positive : ℤ → Option ℕ
positive (pos n) = if n == 0 then none else some n
positive (negsuc n) = none

unfoldable pub not_negative : ℤ → Option ℕ
not_negative (pos n) = some n
not_negative (negsuc n) = none

-- The checks after the defaults, in their order.
unfoldable pub check_settings : Settings → Setup
unfolding or_default positive not_negative new_group_builder
check_settings g = elim (positive (or_default default_worker_count g.worker_count)) [
  | none ↦ Setup.refused SetupError.worker_count_not_positive
  | some workers ↦ elim (positive (or_default default_queue_capacity g.queue_capacity)) [
    | none ↦ Setup.refused SetupError.queue_capacity_not_positive
    | some capacity ↦ elim (not_negative (or_default default_retry_base g.retry_base)) [
      | none ↦ Setup.refused SetupError.invalid_retry_range
      | some base ↦ elim (not_negative (or_default default_retry_max g.retry_max)) [
        | none ↦ Setup.refused SetupError.invalid_retry_range
        | some maximum ↦
            if ltb maximum base
            then Setup.refused SetupError.invalid_retry_range
            else elim (not_negative (or_default default_bootstrap_spread g.bootstrap_spread)) [
              | none ↦ Setup.refused SetupError.negative_spread
              | some spread ↦
                  elim (new_group_builder (or_default default_batch_size g.batch_size)) [
                    | none ↦ Setup.refused SetupError.negative_batch_size
                    | some size ↦ Setup.created (record {
                      batch_size = size;
                      worker_count = workers;
                      queue_capacity = capacity;
                      retry_base = base;
                      retry_max = maximum;
                      bootstrap_spread = spread;
                    })
                  ]
            ]
      ]
    ]
  ]
]

unfoldable pub new_scheduler : (has_executor : Bool) → Settings → Setup
unfolding check_settings
new_scheduler has_executor settings =
    if has_executor then check_settings settings else Setup.refused SetupError.no_executor

pub record Batch : Type 0 where
  pub id : String
  pub item_ids : List String

pub record Group : Type 0 where
  pub id : String
  pub host_id : String
  pub value_type : ℕ
  pub delay : Duration
  pub batches : List Batch
  pub version : ℕ

pub record GroupEntry : Type 0 where
  pub group : Group
  pub next_run_at : Time
  pub next_cadence : Time
  pub retrying : Bool
  pub failures : ℕ
  pub last_planned : Time

pub record CollectionTask : Type 0 where
  pub group : Group
  pub scheduled_at : Time

pub record Scheduler : Type 0 where
  pub entries : Map GroupEntry
  pub in_flight_ids : Map ℕ
  pub tasks : List CollectionTask

abbrev pub empty_scheduler : Scheduler
empty_scheduler = record { entries = []; in_flight_ids = []; tasks = [] }

-- `s.inFlightIDs[id]`, which is 0 for a missing key.
unfoldable pub in_flight : Map ℕ → String → ℕ
in_flight in_flight_ids id = elim (lookup id in_flight_ids) [ none ↦ 0 | some n ↦ n ]

unfoldable pub texts_equal : List String → List String → Bool
texts_equal [] [] = true
texts_equal [] (t ∷ ts) = false
texts_equal (s ∷ ss) [] = false
texts_equal (s ∷ ss) (t ∷ ts) = text_eq s t && texts_equal ss ts

unfoldable pub batches_equal : List Batch → List Batch → Bool
unfolding texts_equal
batches_equal [] [] = true
batches_equal [] (b ∷ bs) = false
batches_equal (a ∷ rest) [] = false
batches_equal (a ∷ rest) (b ∷ bs) =
    text_eq a.id b.id && texts_equal a.item_ids b.item_ids && batches_equal rest bs

unfoldable pub groups_equal : Group → Group → Bool
unfolding batches_equal
groups_equal a b =
    text_eq a.id b.id
    && text_eq a.host_id b.host_id
    && a.value_type == b.value_type
    && a.delay == b.delay
    && a.version == b.version
    && batches_equal a.batches b.batches
