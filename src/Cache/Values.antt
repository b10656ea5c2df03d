-- ===== src/Cache/Values.antt =====
-- internal/cache/value_cache.go: the sharded cache and its operations on known items.
-- A shard's lock makes each visit atomic; an operation is modelled as running with no other
-- operation between its visits. `sum64` is xxhash.Sum64String, which is not under this repository.
pub mod Effects
pub mod Refines
pub mod Accounts
pub mod Updates
use zabbix_exporter.Prelude.{
  ℕ, suc, ◌+◌, ◌-◌, ◌%◌, ◌^◌, String, Bool, true, false, not, ◌&&◌, ◌||◌, List, [], ◌∷◌, ◌++◌,
  Option, none, some, ltb, leb, ◌==◌, if◌then◌else◌, length, get_or, Map, lookup, put, contains,
  total,
}
use zabbix_exporter.Time.{Time, int64_mod}
use zabbix_exporter.Cache.State.{ValueState, PublishPolicy, miss_invalid_after}
use zabbix_exporter.Cache.Shard.{ValueShard, empty_shard, delete, compact_order}
use zabbix_exporter.Cache.Sweep.{sweep}

-- `has_registrar`: an expiry registrar is configured.
pub record ValueCache : Type 0 where
  pub shards : List ValueShard
  pub publish_slots : ℕ
  pub miss_threshold : ℕ
  pub has_registrar : Bool
  pub next_value_version : ℕ
  pub entries : ℕ

pub data DeleteReason : Type 0 where
  metadata_removed metadata_changed expired manual : DeleteReason

pub record DeleteResult : Type 0 where
  pub reason : DeleteReason
  pub deleted : ℕ
  pub stale : ℕ
  pub not_found : ℕ

pub record MissResult : Type 0 where
  pub marked : ℕ
  pub invalidated : ℕ
  pub not_found : ℕ

pub record AckResult : Type 0 where
  pub applied : ℕ
  pub stale : ℕ
  pub not_found : ℕ

pub record VersionedItem : Type 0 where
  pub item_id : String
  pub value_version : ℕ

pub record PublishAck : Type 0 where
  pub item_id : String
  pub value_version : ℕ
  pub published_time : Time

abbrev pub max_uint32 : ℕ
max_uint32 = 2 ^ 32 - 1

-- What a bulk deletion counts: its result, and the atomic counter of entries.
pub record DeleteTally : Type 0 where
  pub result : DeleteResult
  pub entries : ℕ

abbrev pub no_deletes : DeleteReason → DeleteResult
no_deletes reason = record { reason = reason; deleted = 0; stale = 0; not_found = 0 }

-- `deleted++` and `entries.Add(-1)`.
abbrev pub tally_deleted : DeleteTally → DeleteTally
tally_deleted t = record {
  result = record {
    reason = t.result.reason;
    deleted = t.result.deleted + 1;
    stale = t.result.stale;
    not_found = t.result.not_found;
  };
  entries = t.entries - 1;
}

abbrev pub tally_stale : DeleteTally → DeleteTally
tally_stale t = record {
  result = record {
    reason = t.result.reason;
    deleted = t.result.deleted;
    stale = t.result.stale + 1;
    not_found = t.result.not_found;
  };
  entries = t.entries;
}

abbrev pub tally_not_found : DeleteTally → DeleteTally
tally_not_found t = record {
  result = record {
    reason = t.result.reason;
    deleted = t.result.deleted;
    stale = t.result.stale;
    not_found = t.result.not_found + 1;
  };
  entries = t.entries;
}

unfoldable pub delete_step : String → ValueShard → DeleteTally → ValueShard × DeleteTally
delete_step id s t =
    let (s', done) = delete s id in (s', if done then tally_deleted t else tally_not_found t)

unfoldable pub delete_versioned_step :
    VersionedItem → ValueShard → DeleteTally → ValueShard × DeleteTally
delete_versioned_step item s t = elim (lookup item.item_id s.values) [
  | none ↦ (s, tally_not_found t)
  | some state ↦
      if state.value_version == item.value_version
      then ((delete s item.item_id).0, tally_deleted t)
      else (s, tally_stale t)
]

-- The state after one more miss, and whether this miss invalidates it.
unfoldable pub missed : ℕ → Time → ValueState → ValueState × Bool
missed threshold fetched_at state =
    let misses : ℕ =
      if ltb state.consecutive_misses max_uint32
      then state.consecutive_misses + 1
      else state.consecutive_misses in
    let invalid : Bool =
      state.valid
      && leb threshold misses
      && ltb (miss_invalid_after state.source_time state.delay) fetched_at in
    (
      record state {
        consecutive_misses = misses;
        last_fetch_at = fetched_at;
        valid = if invalid then false else state.valid;
      },
      invalid,
    )

unfoldable pub miss_step : ℕ → Time → String → ValueShard → MissResult → ValueShard × MissResult
miss_step threshold fetched_at id s r = elim (lookup id s.values) [
  | none ↦ (s, record r { not_found = r.not_found + 1 })
  | some state ↦
      let (state', invalid) = missed threshold fetched_at state in
      (
        record s { values = put id state' s.values },
        record r {
          marked = r.marked + 1;
          invalidated = if invalid then r.invalidated + 1 else r.invalidated;
        },
      )
]

-- An acknowledgement of the current version moves the marks forward; `none` is a stale one.
unfoldable pub acked : PublishAck → ValueState → Option ValueState
acked ack state =
    let is_zero : Bool = state.last_published_time == 0 in
    let later : Bool = ltb state.last_published_time ack.published_time in
    let time : Time = if later then ack.published_time else state.last_published_time in
    if not (state.value_version == ack.value_version) then none else elim state.publish_policy [
      | PublishPolicy.source_timestamp ↦
          if ltb state.last_published_version ack.value_version
          then some (record state {
            last_published_version = ack.value_version;
            last_published_time = time;
          })
          else none
      | PublishPolicy.cycle_timestamp ↦
          if not (ack.published_time == 0) && (is_zero || later)
          then some (record state { last_published_time = time })
          else none
    ]

unfoldable pub ack_step : PublishAck → ValueShard → AckResult → ValueShard × AckResult
ack_step ack s r = elim (lookup ack.item_id s.values) [
  | none ↦ (s, record r { not_found = r.not_found + 1 })
  | some state ↦ elim (acked ack state) [
    | none ↦ (s, record r { stale = r.stale + 1 })
    | some state' ↦ (
      record s { values = put ack.item_id state' s.values },
      record r { applied = r.applied + 1 },
    )
  ]
]

-- `seen` of groupItemIDs: every item once, at its first place.
unfoldable pub dedup : List String → List String → List String
dedup seen [] = []
dedup seen (id ∷ ids) = if contains id seen then dedup seen ids else id ∷ dedup (id ∷ seen) ids

abbrev pub keep_shard : ValueShard → ValueShard
keep_shard s = s

module _ (sum64 : String → ℕ) where
  -- `sum & (count - 1)`: the number of shards is a power of two.
  unfoldable pub shard_index : ValueCache → String → ℕ
  shard_index c id = sum64 id % length c.shards

  unfoldable pub publish_slot_of : ValueCache → String → ℕ
  publish_slot_of c id = sum64 id % c.publish_slots

  unfoldable pub load : ValueCache → String → Option ValueState
  unfolding shard_index
  load c id = lookup id (get_or c.shards (shard_index c id) empty_shard).values

  unfoldable pub mark_miss : ValueCache → List String → Time → ValueCache × MissResult
  unfolding shard_index sweep dedup miss_step missed
  mark_miss c ids fetched_at =
      let (shards', result) =
        sweep (shard_index c) (miss_step c.miss_threshold fetched_at) keep_shard (dedup [] ids) 0
          c.shards (record { marked = 0; invalidated = 0; not_found = 0 }) in
      (record c { shards = shards' }, result)

  unfoldable pub delete_items : ValueCache → List String → DeleteReason → ValueCache × DeleteResult
  unfolding shard_index sweep dedup delete_step delete compact_order
  delete_items c ids reason =
      let (shards', tally) =
        sweep (shard_index c) delete_step compact_order (dedup [] ids) 0 c.shards
          (record { result = no_deletes reason; entries = c.entries }) in
      (record c { shards = shards'; entries = tally.entries }, tally.result)

  unfoldable pub delete_versioned :
      ValueCache → List VersionedItem → DeleteReason → ValueCache × DeleteResult
  unfolding shard_index sweep delete_versioned_step delete compact_order
  delete_versioned c items reason =
      let (shards', tally) =
        sweep (λ item. shard_index c item.item_id) delete_versioned_step compact_order items 0
          c.shards (record { result = no_deletes reason; entries = c.entries }) in
      (record c { shards = shards'; entries = tally.entries }, tally.result)

  unfoldable pub ack_published : ValueCache → List PublishAck → ValueCache × AckResult
  unfolding shard_index sweep ack_step acked
  ack_published c acks =
      let (shards', result) =
        sweep (λ ack. shard_index c ack.item_id) ack_step keep_shard acks 0 c.shards
          (record { applied = 0; stale = 0; not_found = 0 }) in
      (record c { shards = shards' }, result)
