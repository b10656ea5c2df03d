-- ===== src/Tests.antt =====
-- Concrete caches and wheels, and the theorems at them.
pub mod Applied
pub mod Pushed
pub mod Scheduled
pub mod Collected
pub mod Encoded
pub mod Batched
pub mod Stored
use zabbix_exporter.Prelude.{
  ℕ, zero, suc, ◌+◌, ◌*◌, ◌/◌, ◌↔◌, ◌<◌, ◌≤◌, ◌≡◌, refl, ◌⊎◌, inl, inr, String, Bool, true, false,
  List, [], ◌∷◌, ◌++◌, Option, none, some, ℤ, pos, ◌==◌, if◌then◌else◌, length, All, Map, lookup,
  erase, contains, text_dec, Bool-cases, ==_iff, subst, sym, ap, ◌∙◌, ite, if_pos, if_neg, arith,
}
use zabbix_exporter.Time.{Time, unix, second, minute}
use zabbix_exporter.Cache.State.{
  ValueState, PublishPolicy, value_expire_at, miss_invalid_after, source_is_newer,
}
use zabbix_exporter.Cache.State.Times.{value_expire_at_bounds, miss-le-expire, source_is_newer_iff}
use zabbix_exporter.Cache.Shard.{ScanKey, ValueShard, empty_shard, insert, delete, compact_order}
use zabbix_exporter.Cache.Shard.Order.{count_key}
use zabbix_exporter.Cache.Shard.Valid.{
  IsValid, IsCompact, empty-IsValid, insert-IsValid, delete-IsValid, compact_order-IsValid,
  length-order-le,
}
use zabbix_exporter.Cache.Values.{
  ValueCache, load, shard_index, VersionedItem, PublishAck, DeleteReason, dedup, delete_items,
  mark_miss, ack_published, delete_versioned, delete_versioned_step,
}
use zabbix_exporter.Cache.Sweep.{sweep, visit, run_bucket}
use zabbix_exporter.Cache.Values.Accounts.{
  IsConsistent, live_values, delete_total, delete_versioned-IsConsistent, delete_items-IsConsistent,
}
use zabbix_exporter.Cache.Values.Updates.{mark_miss-IsConsistent, ack_published-IsConsistent}
use zabbix_exporter.Cache.Values.Refines.{
  load-delete_items, load-mark_miss, load-delete_versioned, load-ack_published,
}
use zabbix_exporter.Cache.Values.Effects.{miss_effect, ack_effect, delete_versioned_effect}
use zabbix_exporter.Cache.Sweep.Laws.{replay}
use zabbix_exporter.Cache.Buckets.{
  ExpiryEntry, bucket_key, bucket_at, entries_at, remove_bucket, set_bucket,
}
use zabbix_exporter.Cache.Buckets.Laws.{has_entry, has_key}
use zabbix_exporter.Cache.Wheel.{
  ExpiryWheel, Round, begin_round, expire_due, register_expiry, turns, turn, first_due, close_round,
  process_bucket, activate, process_batch, cut_wheel, batch_size, smaller, remove_empty, pop_key,
  delete_batch, update_last_processed, fill_result, cleanup_lag,
}
use zabbix_exporter.Cache.Wheel.Invariant.{IsSynced, register_expiry-IsSynced}
use zabbix_exporter.Cache.Coverage.{IsRegistered, expire_items, expire_due-returns, expire_due-load}

abbrev hash : String → ℕ
hash s = 0

abbrev start : Time
start = 63_900_000_000 * second

abbrev now : Time
now = start + 200 * second

abbrev state_a : ValueState
state_a = record {
  item_id = "a";
  value = 7;
  source_time = start;
  source_ns = 0;
  last_fetch_at = start;
  last_success_at = start;
  delay = minute;
  expire_at = start + 120 * second;
  consecutive_misses = 1;
  metadata_version = 3;
  value_version = 5;
  last_published_version = 0;
  last_published_time = 0;
  publish_slot = 0;
  publish_policy = PublishPolicy.source_timestamp;
  valid = true;
  scan_sequence = 1;
}

abbrev state_b : ValueState
state_b = record state_a {
  item_id = "b";
  expire_at = start + 600 * second;
  value_version = 4;
  scan_sequence = 2;
}

abbrev shard_ab : ValueShard
shard_ab = record {
  values = ("a", state_a) ∷ ("b", state_b) ∷ [];
  order = record { sequence = 1; item_id = "a" } ∷ record { sequence = 2; item_id = "b" } ∷ [];
  next_sequence = 2;
  tombstones = 0;
}

abbrev cache_ab : ValueCache
cache_ab = record {
  shards = shard_ab ∷ empty_shard ∷ [];
  publish_slots = 12;
  miss_threshold = 2;
  has_registrar = true;
  next_value_version = 5;
  entries = 2;
}

abbrev entry_a : ExpiryEntry
entry_a = record { item_id = "a"; value_version = 5; expire_at = start + 120 * second }

abbrev entry_b : ExpiryEntry
entry_b = record { item_id = "b"; value_version = 4; expire_at = start + 600 * second }

abbrev key_a : ℕ
key_a = 1_065_000_002

abbrev key_b : ℕ
key_b = 1_065_000_010

abbrev wheel_ab : ExpiryWheel
wheel_ab = record {
  buckets = (key_a, entry_a ∷ []) ∷ (key_b, entry_b ∷ []) ∷ [];
  keys = key_a ∷ key_b ∷ [];
  pending_entries = 2;
  max_entries_per_run = 100;
  last_processed_bucket = 0;
  has_processed_bucket = false;
}

shard_ab-IsValid : IsValid shard_ab
unfolding count_key lookup text_dec
shard_ab-IsValid = record {
  ascending = (omega arith, (omega arith, tt));
  below = (omega arith, (omega arith, tt));
  scanned = (refl, refl, refl, (refl, refl, refl, tt));
  counted = refl;
}

shards-IsValid : All IsValid cache_ab.shards
shards-IsValid = (shard_ab-IsValid, (empty-IsValid, tt))

cache_ab-IsConsistent : IsConsistent cache_ab
cache_ab-IsConsistent = record {
  full = omega arith;
  valid = shards-IsValid;
  compact = (inl (omega arith), (inl (omega arith), tt));
  counted = refl;
}

key_a_test : bucket_key (start + 120 * second) ≡ key_a
unfolding bucket_key
key_a_test = refl

key_b_test : bucket_key (start + 600 * second) ≡ key_b
unfolding bucket_key
key_b_test = refl

keyed_ab : (k : ℕ) → All (λ e. bucket_key e.expire_at ≡ k) (entries_at k wheel_ab.buckets)
unfolding bucket_at
keyed_ab k = elim (Bool-cases (key_a == k)) [
  | inl t ↦ rw t (key_a_test ∙ (==_iff key_a k).0 t, tt)
  | inr f ↦ elim (Bool-cases (key_b == k)) [
    | inl t ↦ rw f (rw t (key_b_test ∙ (==_iff key_b k).0 t, tt))
    | inr g ↦ rw f (rw g tt)
  ]
]

wheel_ab-IsSynced : IsSynced wheel_ab.keys wheel_ab.buckets
unfolding bucket_at has_key
wheel_ab-IsSynced = record {
  rising = (omega arith, (omega arith, tt));
  synced = λ k. ground arith;
  keyed = λ k. keyed_ab k;
}

load_ab :
    (id : String)
    → load hash cache_ab id
      ≡ ite (text_dec "a" id) (some state_a) (ite (text_dec "b" id) (some state_b) none)
unfolding load shard_index lookup
load_ab id = refl

only_ab :
    (id : String) (st : ValueState)
    → load hash cache_ab id ≡ some st
    → ((id ≡ "a") × (st ≡ state_a)) ⊎ ((id ≡ "b") × (st ≡ state_b))
only_ab id st l = ground (arith, load_ab id)

entry_a_test :
    has_entry "a" 5
      (start + 120 * second)
      (entries_at (bucket_key (start + 120 * second)) wheel_ab.buckets)
    ≡ true
unfolding has_entry bucket_at bucket_key text_dec
entry_a_test = refl

entry_b_test :
    has_entry "b" 4
      (start + 600 * second)
      (entries_at (bucket_key (start + 600 * second)) wheel_ab.buckets)
    ≡ true
unfolding has_entry bucket_at bucket_key text_dec
entry_b_test = refl

registered_as :
    (id name : String) (st state : ValueState) (v : ℕ) (x : Time)
    → id ≡ name
    → st ≡ state
    → st.value_version ≡ v
    → st.expire_at ≡ x
    → has_entry name state.value_version state.expire_at
        (entries_at (bucket_key state.expire_at) wheel_ab.buckets)
      ≡ true
    → has_entry id v x (entries_at (bucket_key x) wheel_ab.buckets) ≡ true
registered_as id name st state v x same is ev ex h =
    let version : v ≡ state.value_version = sym ev ∙ ap (λ (t : ValueState). t.value_version) is in
    let expiry : x ≡ state.expire_at = sym ex ∙ ap (λ (t : ValueState). t.expire_at) is in
    rw same (rw version (rw expiry h))

cache_ab-IsRegistered : IsRegistered hash cache_ab wheel_ab
cache_ab-IsRegistered id v x (full, (st, l, ev, ex)) = elim (only_ab id st l) [
  | inl (same, is) ↦ registered_as id "a" st state_a v x same is ev ex entry_a_test
  | inr (same, is) ↦ registered_as id "b" st state_b v x same is ev ex entry_b_test
]

-- Two values, of which one is due.
expire_due-returns_example :
    (r : Round ValueCache) × (expire_due (expire_items hash) wheel_ab now cache_ab ≡ some r)
    × IsSynced r.wheel.keys r.wheel.buckets
    × IsRegistered hash r.store r.wheel
expire_due-returns_example =
    expire_due-returns hash wheel_ab now cache_ab wheel_ab-IsSynced cache_ab-IsRegistered

or_start : Option (Round ValueCache) → Round ValueCache
or_start none = begin_round (expire_items hash) wheel_ab cache_ab
or_start (some r) = r

after_round : Round ValueCache
unfolding expire_due turns turn
after_round = or_start (expire_due (expire_items hash) wheel_ab now cache_ab)

round_test : expire_due (expire_items hash) wheel_ab now cache_ab ≡ some after_round
unfolding after_round or_start expire_due turns turn first_due bucket_key bucket_at close_round
    process_bucket activate process_batch cut_wheel batch_size smaller remove_empty remove_bucket
    set_bucket pop_key delete_batch delete_versioned sweep visit run_bucket delete_versioned_step
    delete lookup erase text_dec compact_order shard_index update_last_processed fill_result
    cleanup_lag
round_test = refl

-- The value that is not due is still there, and not due.
b_after : load hash after_round.store "b" ≡ some state_b
unfolding load after_round or_start expire_due turns turn first_due bucket_key bucket_at close_round
    process_bucket activate process_batch cut_wheel batch_size smaller remove_empty remove_bucket
    set_bucket pop_key delete_batch delete_versioned sweep visit run_bucket delete_versioned_step
    delete lookup erase text_dec compact_order shard_index update_last_processed fill_result
    cleanup_lag
b_after = refl

not_limited : after_round.result.limited ≡ false
unfolding after_round or_start expire_due turns turn first_due bucket_key bucket_at close_round
    process_bucket activate process_batch cut_wheel batch_size smaller remove_empty remove_bucket
    set_bucket pop_key delete_batch delete_versioned sweep visit run_bucket delete_versioned_step
    delete lookup erase text_dec compact_order shard_index update_last_processed fill_result
    cleanup_lag
not_limited = refl

expire_due-load_example : now < start + 600 * second
expire_due-load_example =
    expire_due-load hash wheel_ab now cache_ab after_round wheel_ab-IsSynced cache_ab-IsRegistered
      round_test not_limited "b" state_b b_after

abbrev items : List VersionedItem
items =
    record { item_id = "a"; value_version = 5 }
    ∷ record { item_id = "b"; value_version = 1 }
    ∷ record { item_id = "c"; value_version = 1 }
    ∷ []

abbrev acks : List PublishAck
acks =
    record { item_id = "a"; value_version = 5; published_time = start }
    ∷ record { item_id = "b"; value_version = 9; published_time = start }
    ∷ []

two_shards : 0 < length cache_ab.shards
two_shards = omega arith

delete_versioned-IsConsistent_example :
    IsConsistent (delete_versioned hash cache_ab items DeleteReason.manual).0
    × (live_values (delete_versioned hash cache_ab items DeleteReason.manual).0
          + (delete_versioned hash cache_ab items DeleteReason.manual).1.deleted
        ≡ live_values cache_ab)
    × (delete_total (delete_versioned hash cache_ab items DeleteReason.manual).1 ≡ 3)
delete_versioned-IsConsistent_example =
    delete_versioned-IsConsistent hash cache_ab cache_ab-IsConsistent items DeleteReason.manual

delete_items-IsConsistent_example :
    IsConsistent (delete_items hash cache_ab ("a" ∷ "a" ∷ []) DeleteReason.manual).0
    × (live_values (delete_items hash cache_ab ("a" ∷ "a" ∷ []) DeleteReason.manual).0
          + (delete_items hash cache_ab ("a" ∷ "a" ∷ []) DeleteReason.manual).1.deleted
        ≡ live_values cache_ab)
    × (delete_total (delete_items hash cache_ab ("a" ∷ "a" ∷ []) DeleteReason.manual).1
        ≡ length (dedup [] ("a" ∷ "a" ∷ [])))
delete_items-IsConsistent_example =
    delete_items-IsConsistent hash cache_ab cache_ab-IsConsistent ("a" ∷ "a" ∷ [])
      DeleteReason.manual

load-delete_items_example :
    load hash (delete_items hash cache_ab ("a" ∷ []) DeleteReason.manual).0 "a"
    ≡ (if contains "a" ("a" ∷ []) then none else load hash cache_ab "a")
load-delete_items_example =
    load-delete_items hash cache_ab two_shards ("a" ∷ []) DeleteReason.manual "a"

load-mark_miss_example : load hash (mark_miss hash cache_ab ("a" ∷ []) now).0 "a" ≡ (
    if contains "a" ("a" ∷ [])
    then miss_effect 2 now "a" (load hash cache_ab "a")
    else load hash cache_ab "a")
load-mark_miss_example = load-mark_miss hash cache_ab two_shards ("a" ∷ []) now "a"

load-delete_versioned_example :
    load hash (delete_versioned hash cache_ab items DeleteReason.manual).0 "b"
    ≡ replay (λ q. q.item_id) delete_versioned_effect "b" items (load hash cache_ab "b")
load-delete_versioned_example =
    load-delete_versioned hash cache_ab two_shards items DeleteReason.manual "b"

load-ack_published_example :
    load hash (ack_published hash cache_ab acks).0 "a"
    ≡ replay (λ q. q.item_id) ack_effect "a" acks (load hash cache_ab "a")
load-ack_published_example = load-ack_published hash cache_ab two_shards acks "a"

register_expiry-IsSynced_example :
    IsSynced
      (register_expiry wheel_ab (entry_a ∷ [])).keys
      (register_expiry wheel_ab (entry_a ∷ [])).buckets
register_expiry-IsSynced_example =
    register_expiry-IsSynced wheel_ab (entry_a ∷ []) wheel_ab-IsSynced

value_expire_at_bounds_example :
    (start + 2 * minute ≤ value_expire_at start minute)
    × (start + 90 * second ≤ value_expire_at start minute)
    × (value_expire_at start minute ≤ start + 2 * minute + minute / 5 + 90 * second)
value_expire_at_bounds_example = value_expire_at_bounds start minute (omega arith)

abbrev clock_a : ℕ
clock_a = 63_900_000_000
