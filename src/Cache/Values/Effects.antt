-- ===== src/Cache/Values/Effects.antt =====
-- internal/cache/value_cache.go: one request on one state, as an effect on a flat map.
use zabbix_exporter.Prelude.{
  ℕ, ◌+◌, ◌*◌, ◌/◌, ◌≡◌, refl, ap, String, Option, none, some, if◌then◌else◌, ◌==◌, true, false,
  ◌⊎◌, Bool, not, ◌&&◌, ◌||◌, ltb, leb, Bool-cases, ite, text_dec, lookup, lookup-put, lookup-erase,
  arith, Option-cases, inl, inr,
}
use zabbix_exporter.Time.{Time, Duration, second, add}
use Prim.Native.Nat.{min, max}
use zabbix_exporter.Cache.State.{ValueState, PublishPolicy, grace_for, miss_invalid_after}
use zabbix_exporter.Cache.Shard.{ValueShard, delete, compact_order}
use zabbix_exporter.Cache.Values.{
  DeleteTally, MissResult, AckResult, VersionedItem, PublishAck, delete_step, delete_versioned_step,
  max_uint32, missed, miss_step, acked, ack_step,
}

abbrev pub delete_effect : String → Option ValueState → Option ValueState
delete_effect id o = none

-- A deletion by version removes the state only if it is still the named generation.
abbrev pub delete_versioned_effect : VersionedItem → Option ValueState → Option ValueState
delete_versioned_effect item none = none
delete_versioned_effect item (some state) =
    if state.value_version == item.value_version then none else some state

-- The time that a value is good for: its delay and a grace of a fifth of it, at least 30 seconds.
abbrev pub good_until : Time → Duration → Time
good_until source delay = add source (delay + max (delay / 5) (30 * second))

-- One miss: the counter rises by one, up to the greatest uint32, and the value stays valid as long as
-- the misses are below the threshold or the fetch is not after the time that the value is good for.
abbrev pub miss_effect : ℕ → Time → String → Option ValueState → Option ValueState
miss_effect threshold fetched_at id none = none
miss_effect threshold fetched_at id (some state) =
    let misses : ℕ = min (state.consecutive_misses + 1) (max state.consecutive_misses max_uint32) in
    some (record state {
      consecutive_misses = misses;
      last_fetch_at = fetched_at;
      valid =
          state.valid
          && (ltb misses threshold || leb fetched_at (good_until state.source_time state.delay));
    })

abbrev or_self : Option ValueState → ValueState → ValueState
or_self none state = state
or_self (some moved) state = moved

-- An acknowledgement of another generation changes nothing, nor does one of a version that was
-- already published. Otherwise the published time is the later of both; the published version
-- moves only where the source's timestamps are sent.
abbrev pub ack_effect : PublishAck → Option ValueState → Option ValueState
ack_effect ack none = none
ack_effect ack (some state) =
    let time : Time = max state.last_published_time ack.published_time in
    if not (state.value_version == ack.value_version)
    then some state
    else elim state.publish_policy [
      | PublishPolicy.source_timestamp ↦
          if leb state.value_version state.last_published_version
          then some state
          else some (record state {
            last_published_version = state.value_version;
            last_published_time = time;
          })
      | PublishPolicy.cycle_timestamp ↦ some (record state { last_published_time = time })
    ]

counted-min : (n : ℕ) → (if ltb n max_uint32 then n + 1 else n) ≡ min (n + 1) (max n max_uint32)
counted-min n = elim (Bool-cases (ltb n max_uint32)) [ inl t ↦ ground arith | inr f ↦ ground arith ]

still_valid :
    (v : Bool) (threshold misses : ℕ) (last at : Time)
    → (if v && leb threshold misses && ltb last at then false else v)
      ≡ (v && (ltb misses threshold || leb at last))
still_valid false threshold misses last at = ground arith
still_valid true threshold misses last at = ground arith

miss_invalid_after-good_until :
    (source : Time) (delay : Duration) → miss_invalid_after source delay ≡ good_until source delay
unfolding miss_invalid_after grace_for
miss_invalid_after-good_until source delay = ap (λ grace. add source (delay + grace)) (ground arith)

missed_lem :
    (threshold : ℕ) (at : Time) (id : String) (state : ValueState)
    → some (missed threshold at state).0 ≡ miss_effect threshold at id (some state)
unfolding missed
missed_lem threshold at id state =
    let n : ℕ = state.consecutive_misses in
    rw (counted-min n) (
      rw
        (still_valid state.valid threshold (min (n + 1) (max n max_uint32))
          (miss_invalid_after state.source_time state.delay) at)
        (rw (miss_invalid_after-good_until state.source_time state.delay) refl))

policy_cases :
    (p : PublishPolicy) → (p ≡ PublishPolicy.source_timestamp) ⊎ (p ≡ PublishPolicy.cycle_timestamp)
policy_cases PublishPolicy.source_timestamp = inl refl
policy_cases PublishPolicy.cycle_timestamp = inr refl

later-max :
    (last published : Time) → (if ltb last published then published else last) ≡ max last published
later-max last published = ground arith

-- The state that an acknowledgement leaves, whether it applies or is stale.
acked_lem :
    (ack : PublishAck) (state : ValueState)
    → some (or_self (acked ack state) state) ≡ ack_effect ack (some state)
unfolding acked
acked_lem ack state = elim (Bool-cases (state.value_version == ack.value_version)) [
  | inr f ↦ rw (f, acked) refl
  | inl t ↦ elim (policy_cases state.publish_policy) [
    | inl p ↦ ground (arith, later-max state.last_published_time ack.published_time)
    | inr p ↦ ground (arith, later-max state.last_published_time ack.published_time)
  ]
]

lookup-delete :
    (j id : String) (s : ValueShard)
    → lookup j (delete s id).0.values ≡ ite (text_dec id j) none (lookup j s.values)
unfolding delete
lookup-delete j id s = ground (arith, lookup-erase id j s.values)

pub lookup-delete_step :
    (j id : String) (s : ValueShard) (t : DeleteTally)
    → lookup j (delete_step id s t).0.values
      ≡ ite (text_dec id j) (delete_effect id (lookup j s.values)) (lookup j s.values)
unfolding delete_step
lookup-delete_step j id s t = lookup-delete j id s

pub lookup-delete_versioned_step :
    (j : String) (item : VersionedItem) (s : ValueShard) (t : DeleteTally)
    → lookup j (delete_versioned_step item s t).0.values
      ≡ ite
          (text_dec item.item_id j)
          (delete_versioned_effect item (lookup j s.values))
          (lookup j s.values)
unfolding delete_versioned_step
lookup-delete_versioned_step j item s t = ground (arith, lookup-delete j item.item_id s)

pub lookup-miss_step :
    (threshold : ℕ) (at : Time) (j id : String) (s : ValueShard) (r : MissResult)
    → lookup j (miss_step threshold at id s r).0.values
      ≡ ite (text_dec id j) (miss_effect threshold at id (lookup j s.values)) (lookup j s.values)
unfolding miss_step
lookup-miss_step threshold at j id s r = elim (Option-cases (lookup id s.values)) [
  | inl e ↦ ground arith
  | inr (v, e) ↦
      ground
        (arith, missed_lem threshold at id v, lookup-put id j (missed threshold at v).0 s.values)
]

pub lookup-ack_step :
    (j : String) (ack : PublishAck) (s : ValueShard) (r : AckResult)
    → lookup j (ack_step ack s r).0.values
      ≡ ite (text_dec ack.item_id j) (ack_effect ack (lookup j s.values)) (lookup j s.values)
unfolding ack_step
lookup-ack_step j ack s r = elim (Option-cases (lookup ack.item_id s.values)) [
  | inl e ↦ ground arith
  | inr (v, e) ↦ elim (Option-cases (acked ack v)) [
    | inl f ↦ ground (arith, acked_lem ack v)
    | inr (w, f) ↦ ground (arith, acked_lem ack v, lookup-put ack.item_id j w s.values)
  ]
]

pub compact_order-values : (s : ValueShard) → (compact_order s).values ≡ s.values
unfolding compact_order
compact_order-values s = ground arith
