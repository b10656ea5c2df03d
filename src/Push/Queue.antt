-- ===== src/Push/Queue.antt =====
-- internal/promwrap/push_worker.go: the bounded queue of encoded batches, in one lane per worker.
-- Each operation holds the queue's lock. The notification channels are not modelled: a `pop` that
-- would wait for one returns `wait`.
pub mod Sound
pub mod Cycles
use zabbix_exporter.Prelude.{
  ℕ, zero, suc, ◌+◌, ◌-◌, String, Bool, true, false, not, ◌&&◌, ◌||◌, List, [], ◌∷◌, ◌++◌, Option,
  none, some, ltb, leb, ◌==◌, if◌then◌else◌, length, get_or, replicate, keep,
}
use zabbix_exporter.Cache.State.{PublishPolicy}
use zabbix_exporter.Cache.Values.{PublishAck}

pub record PublishKey : Type 0 where
  pub series_id : String
  pub generation : ℕ
  pub timestamp_ms : ℕ

-- `cycle_timestamp_ms` is in milliseconds of the Unix epoch, not negative.
pub record EncodedBatch : Type 0 where
  pub body : List ℕ
  pub acks : List PublishAck
  pub keys : List PublishKey
  pub policy : PublishPolicy
  pub slot : ℕ
  pub cycle_timestamp_ms : ℕ
  pub lane : ℕ
  pub samples : ℕ
  pub uncompressed_bytes : ℕ
  pub compressed_bytes : ℕ

pub data QueueAdmission : Type 0 where
  accepted full obsolete : QueueAdmission

-- `latest_cycles`: a map from the slot.
pub record LaneQueue : Type 0 where
  pub lanes : List (List EncodedBatch)
  pub capacity : ℕ
  pub size : ℕ
  pub closed : Bool
  pub latest_cycles : List (ℕ × ℕ)

unfoldable pub new_lane_queue : ℕ → ℕ → LaneQueue
new_lane_queue workers capacity = record {
  lanes = replicate workers [];
  capacity = capacity;
  size = 0;
  closed = false;
  latest_cycles = [];
}

unfoldable pub cycle_at : ℕ → List (ℕ × ℕ) → Option ℕ
cycle_at slot [] = none
cycle_at slot ((j, ms) ∷ m) = if j == slot then some ms else cycle_at slot m

unfoldable pub set_cycle : ℕ → ℕ → List (ℕ × ℕ) → List (ℕ × ℕ)
set_cycle slot ms [] = (slot, ms) ∷ []
set_cycle slot ms ((j, old) ∷ m) =
    if j == slot then (slot, ms) ∷ m else (j, old) ∷ set_cycle slot ms m

-- The latest cycle of a slot; a missing key reads as 0.
abbrev pub latest_or_zero : Option ℕ → ℕ
latest_or_zero none = 0
latest_or_zero (some ms) = ms

abbrev pub is_long : EncodedBatch → Bool
is_long batch = elim batch.policy [
  | PublishPolicy.source_timestamp ↦ false
  | PublishPolicy.cycle_timestamp ↦ true
]

-- A queued batch of the slot and of an earlier cycle.
unfoldable pub is_replaced : ℕ → ℕ → EncodedBatch → Bool
is_replaced slot cycle batch =
    is_long batch && batch.slot == slot && ltb batch.cycle_timestamp_ms cycle

unfoldable pub keep_lanes :
    (EncodedBatch → Bool) → List (List EncodedBatch) → List (List EncodedBatch)
keep_lanes p [] = []
keep_lanes p (lane ∷ lanes) = keep p lane ∷ keep_lanes p lanes

unfoldable pub join_lanes : List (List EncodedBatch) → List EncodedBatch
join_lanes [] = []
join_lanes (lane ∷ lanes) = lane ++ join_lanes lanes

unfoldable pub set_lane :
    ℕ → List EncodedBatch → List (List EncodedBatch) → List (List EncodedBatch)
set_lane i lane [] = []
set_lane zero lane (l ∷ ls) = lane ∷ ls
set_lane (suc i) lane (l ∷ ls) = l ∷ set_lane i lane ls

-- Whether the cycle is the slot's latest, and the batches that it removes.
pub record Begun : Type 0 where
  pub queue : LaneQueue
  pub current : Bool
  pub removed : List EncodedBatch

abbrev pub replace_cycle : LaneQueue → ℕ → ℕ → Begun
replace_cycle q slot cycle =
    let removed : List EncodedBatch = join_lanes (keep_lanes (is_replaced slot cycle) q.lanes) in
    record {
      queue = record q {
        lanes = keep_lanes (λ batch. not (is_replaced slot cycle batch)) q.lanes;
        size = q.size - length removed;
        latest_cycles = set_cycle slot cycle q.latest_cycles;
      };
      current = true;
      removed = removed;
    }

-- `beginLongCycle` of a queue that is not closed.
unfoldable pub begin_open : LaneQueue → ℕ → ℕ → Begun
begin_open q slot cycle = elim (cycle_at slot q.latest_cycles) [
  | none ↦ replace_cycle q slot cycle
  | some latest ↦
      if ltb cycle latest
      then record { queue = q; current = false; removed = [] }
      else if cycle == latest
      then record { queue = q; current = true; removed = [] }
      else replace_cycle q slot cycle
]

unfoldable pub begin_long_cycle : LaneQueue → ℕ → ℕ → Begun
begin_long_cycle q slot cycle =
    if q.closed
    then record { queue = q; current = false; removed = [] }
    else begin_open q slot cycle

-- `tryEnqueue` of a queue that is not closed.
unfoldable pub enqueue_open : LaneQueue → EncodedBatch → LaneQueue × QueueAdmission
enqueue_open q batch =
    if is_long batch
      && ltb batch.cycle_timestamp_ms (latest_or_zero (cycle_at batch.slot q.latest_cycles))
    then (q, QueueAdmission.obsolete)
    else if leb q.capacity q.size
    then (q, QueueAdmission.full)
    else (
      record q {
        lanes = set_lane batch.lane (get_or q.lanes batch.lane [] ++ batch ∷ []) q.lanes;
        size = q.size + 1;
      },
      QueueAdmission.accepted,
    )

unfoldable pub try_enqueue : LaneQueue → EncodedBatch → LaneQueue × QueueAdmission
try_enqueue q batch = if q.closed then (q, QueueAdmission.obsolete) else enqueue_open q batch

pub data Popped : Type 0 where
  batch : EncodedBatch → Popped
  ended wait : Popped

unfoldable pub pop : LaneQueue → ℕ → LaneQueue × Popped
pop q lane = elim (get_or q.lanes lane []) [
  | [] ↦ (q, if q.closed then Popped.ended else Popped.wait)
  | b ∷ rest ↦ (record q { lanes = set_lane lane rest q.lanes; size = q.size - 1 }, Popped.batch b)
]

unfoldable pub close : LaneQueue → LaneQueue × List EncodedBatch
close q = if q.closed then (q, []) else (
  record q { closed = true; lanes = keep_lanes (λ b. false) q.lanes; size = 0 },
  join_lanes q.lanes,
)

unfoldable pub queue_len : LaneQueue → ℕ
queue_len q = q.size
