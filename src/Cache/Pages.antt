-- ===== src/Cache/Pages.antt =====
-- internal/cache/value_cache.go: the pages of values that publishing and scraping read.
pub mod Selected
use zabbix_exporter.Prelude.{
  ℕ, suc, ◌+◌, ◌%◌, ◌^◌, String, Bool, true, false, not, ◌&&◌, ◌||◌, List, [], ◌∷◌, ◌++◌, Option,
  none, some, ℤ, pos, negsuc, ltb, leb, ◌==◌, if◌then◌else◌, length, drop, lookup,
}
use zabbix_exporter.Time.{Time}
use zabbix_exporter.Cache.State.{ValueState, PublishPolicy}
use zabbix_exporter.Cache.Shard.{ScanKey, ValueShard, first_sequence_after, is_live}
use zabbix_exporter.Cache.Values.{ValueCache}

pub record PublishCursor : Type 0 where
  pub shard : ℕ
  pub sequence : ℕ

pub record PublishValue : Type 0 where
  pub item_id : String
  pub value : ℕ
  pub timestamp : Time
  pub source_timestamp : Time
  pub source_ns : ℕ
  pub metadata_version : ℕ
  pub value_version : ℕ
  pub publish_slot : ℕ
  pub publish_policy : PublishPolicy

pub record PublishPage : Type 0 where
  pub values : List PublishValue
  pub next : PublishCursor
  pub done : Bool

pub data PageResult : Type 0 where
  slot_out_of_range no_timestamp bad_limit cursor_out_of_range : PageResult
  page : PublishPage → PageResult

unfoldable pub publish_eligible : ValueState → Time → Bool
publish_eligible state cycle =
    if not state.valid || leb state.expire_at cycle then false else elim state.publish_policy [
      | PublishPolicy.source_timestamp ↦ ltb state.last_published_version state.value_version
      | PublishPolicy.cycle_timestamp ↦
          if ltb cycle state.source_time
          then false
          else state.last_published_time == 0 || ltb state.last_published_time cycle
    ]

unfoldable pub scrape_eligible : ValueState → Time → Bool
scrape_eligible state at =
    if not state.valid || leb state.expire_at at then false else elim state.publish_policy [
      | PublishPolicy.source_timestamp ↦ true
      | PublishPolicy.cycle_timestamp ↦ not (ltb at state.source_time)
    ]

-- A long cycle's value carries the timestamp of the cycle.
unfoldable pub publish_value : Time → ValueState → PublishValue
publish_value at state = record {
  item_id = state.item_id;
  value = state.value;
  timestamp = elim state.publish_policy [
    | PublishPolicy.source_timestamp ↦ state.source_time
    | PublishPolicy.cycle_timestamp ↦ at
  ];
  source_timestamp = state.source_time;
  source_ns = state.source_ns;
  metadata_version = state.metadata_version;
  value_version = state.value_version;
  publish_slot = state.publish_slot;
  publish_policy = state.publish_policy;
}

-- The loops of both readers: `eligible` tells which states they select, `at` is their timestamp.
module _ (eligible : ValueState → Bool) (at : Time) where
  -- The value that a key of the scan order selects.
  unfoldable pub select : ValueShard → ScanKey → Option PublishValue
  select s key = elim (lookup key.item_id s.values) [
    | none ↦ none
    | some state ↦
        if state.scan_sequence == key.sequence && eligible state
        then some (publish_value at state)
        else none
  ]

module _ (eligible : ValueState → Bool) (at : Time) (limit : ℕ) where
  -- One shard's keys; `true` says that the page is full.
  unfoldable pub scan_keys : ValueShard → ℕ → List ScanKey → PublishPage → PublishPage × Bool
  scan_keys s index [] p = (p, false)
  scan_keys s index (key ∷ keys) p =
      let p' : PublishPage = record p {
        next = record { shard = index; sequence = key.sequence };
      } in
      elim (select eligible at s key) [
        | none ↦ scan_keys s index keys p'
        | some v ↦
            let full : PublishPage = record p' { values = p'.values ++ v ∷ [] } in
            let rest : PublishPage × Bool = scan_keys s index keys full in
            if length full.values == limit then (full, true) else rest
      ]

  -- The shards from `index` on; the first is resumed after `sequence`.
  unfoldable pub scan_shards : ℕ → ℕ → List ValueShard → PublishPage → PublishPage
  scan_shards index sequence [] p = record p { done = true }
  scan_shards index sequence (s ∷ ss) p =
      let (p', full) = scan_keys s index (drop (first_sequence_after s sequence) s.order) p in
      let onward : PublishPage = record p' {
        next = record { shard = suc index % 2 ^ 16; sequence = 0 };
      } in
      let rest : PublishPage = scan_shards (suc index) 0 ss onward in if full then p' else rest

unfoldable pub read_page : (ValueState → Bool) → Time → ValueCache → PublishCursor → ℕ → PageResult
read_page eligible at c cursor limit =
    let start : PublishPage = record { values = []; next = cursor; done = false } in
    if ltb (length c.shards) cursor.shard
    then PageResult.cursor_out_of_range
    else if cursor.shard == length c.shards
    then PageResult.page (record start { done = true })
    else PageResult.page (
        scan_shards eligible at limit cursor.shard cursor.sequence (drop cursor.shard c.shards)
          start)

unfoldable pub read_publish_page : ValueCache → ℕ → PublishCursor → Time → ℤ → PageResult
read_publish_page c slot cursor cycle (negsuc n) =
    if leb c.publish_slots slot then PageResult.slot_out_of_range else PageResult.bad_limit
read_publish_page c slot cursor cycle (pos limit) =
    if leb c.publish_slots slot
    then PageResult.slot_out_of_range
    else if limit == 0
    then PageResult.bad_limit
    else read_page (λ state. state.publish_slot == slot && publish_eligible state cycle) cycle c
        cursor limit

unfoldable pub read_scrape_page : ValueCache → PublishCursor → Time → ℤ → PageResult
read_scrape_page c cursor at (negsuc n) =
    if at == 0 then PageResult.no_timestamp else PageResult.bad_limit
read_scrape_page c cursor at (pos limit) =
    if at == 0
    then PageResult.no_timestamp
    else if limit == 0
    then PageResult.bad_limit
    else read_page (λ state. scrape_eligible state at) at c cursor limit
