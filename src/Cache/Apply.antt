-- ===== src/Cache/Apply.antt =====
-- internal/cache/value_cache.go: ApplyBatch, which writes a history result into the cache.
-- `parse_float` is strconv.ParseFloat: the bit pattern of the float64, or no value. The metadata
-- source may publish while a batch is applied, so what it returns is an argument for each call.
pub mod Steps
pub mod Writes
pub mod Newer
pub mod Counts
pub mod Stale
pub mod Misses
use zabbix_exporter.Prelude.{
  ℕ, suc, ◌+◌, ◌-◌, ◌*◌, ◌/◌, ◌%◌, ◌^◌, String, Bool, true, false, not, ◌&&◌, ◌||◌, List, [], ◌∷◌,
  ◌++◌, Option, none, some, ℤ, pos, negsuc, ltb, leb, ◌==◌, if◌then◌else◌, length, keep, Map,
  lookup, put, contains, include, text_eq,
}
use zabbix_exporter.Time.{Time, Duration, second, int64_mod}
use zabbix_exporter.Zabbix.History.{
  HistoryItem, HistoryQuery, BatchResult, BatchStatus, reduce_latest,
}
use zabbix_exporter.Metadata.Types.{MetadataSnapshot, ItemMetadata}
use zabbix_exporter.Cache.State.{
  ValueState, PublishPolicy, value_expire_at, publish_policy_for_delay, source_is_newer,
}
use zabbix_exporter.Cache.Shard.{ValueShard, insert}
use zabbix_exporter.Cache.Sweep.{sweep}
use zabbix_exporter.Cache.Values.{ValueCache, shard_index, publish_slot_of, keep_shard, dedup}
use zabbix_exporter.Cache.Buckets.{ExpiryEntry}

pub record PendingValue : Type 0 where
  pub item_id : String
  pub value : ℕ
  pub clock : ℕ
  pub ns : ℕ
  pub delay : Duration
  pub metadata_version : ℕ
  pub fetched_at : Time

pub record ApplyResult : Type 0 where
  pub status : BatchStatus
  pub created : ℕ
  pub updated : ℕ
  pub unchanged : ℕ
  pub rejected : ℕ
  pub skipped : ℕ
  pub stale : ℕ
  pub miss_item_ids : List String
  pub errors : List String
  pub metadata_version : ℕ

-- What the metadata source's Snapshot() returns at the check of each item: while the query's items
-- are checked, and while an item's shard is locked.
pub record MetadataReads : Type 0 where
  pub at_query : String → Option MetadataSnapshot
  pub at_write : String → Option MetadataSnapshot

abbrev pub current_in : Option MetadataSnapshot → String → ℕ → Bool
current_in none id version = false
current_in (some snapshot) id version = elim (lookup id snapshot.items) [
  | none ↦ false
  | some item ↦ item.version == version
]

-- metadataVersionCurrent: with no source every version is current.
abbrev pub current_at_query : Option MetadataReads → String → ℕ → Bool
current_at_query none id version = true
current_at_query (some reads) id version = current_in (reads.at_query id) id version

abbrev pub current_at_write : Option MetadataReads → String → ℕ → Bool
current_at_write none id version = true
current_at_write (some reads) id version = current_in (reads.at_write id) id version

-- `staleItems` and `protectedFromMiss`; `apply.Stale` counts the former.
pub record Marks : Type 0 where
  pub stale_items : List String
  pub protected : List String

unfoldable pub mark_stale : String → Marks → Marks
mark_stale id m = record {
  stale_items = include id m.stale_items;
  protected = include id m.protected;
}

-- The snapshot has the item, in the definition that the source publishes at its check.
unfoldable pub is_fresh : Option MetadataReads → MetadataSnapshot → String → Bool
is_fresh reads snapshot id = elim (lookup id snapshot.items) [
  | none ↦ false
  | some item ↦ current_at_query reads id item.version
]

unfoldable pub scan_query : Option MetadataReads → MetadataSnapshot → List String → Marks → Marks
scan_query reads snapshot [] m = m
scan_query reads snapshot (id ∷ ids) m =
    scan_query reads snapshot ids (if is_fresh reads snapshot id then m else mark_stale id m)

pub data Verdict : Type 0 where
  skip reject : Verdict
  accept : PendingValue → Verdict

-- Neither NaN nor an infinity: the exponent is not all ones.
unfoldable pub is_finite : ℕ → Bool
is_finite bits = not (bits / 2 ^ 52 % 2048 == 2047)

abbrev pub is_numeric : String → Bool
is_numeric value_type = text_eq value_type "0" || text_eq value_type "3"

unfoldable pub check_value : ItemMetadata → Time → String → HistoryItem → Option ℕ → Verdict
unfolding is_finite
check_value item fetched_at id point none = reject
check_value item fetched_at id point (some bits) = elim point.ns [
  | negsuc n ↦ reject
  | pos ns ↦
      if not (is_finite bits) || leb second ns
      then reject
      else accept (record {
        item_id = id;
        value = bits;
        clock = point.clock;
        ns = ns;
        delay = item.delay;
        metadata_version = item.version;
        fetched_at = fetched_at;
      })
]

module _ (parse_float : String → Option ℕ) where
  unfoldable pub check_point : MetadataSnapshot → Time → String → HistoryItem → Verdict
  unfolding check_value
  check_point snapshot fetched_at id point = elim (lookup id snapshot.items) [
    | none ↦ skip
    | some item ↦
        if not item.enabled || item.delay == 0 || not (is_numeric item.value_type)
        then skip
        else check_value item fetched_at id point (parse_float point.value)
  ]

-- The first loop over the latest points.
pub record Sorted : Type 0 where
  pub skipped : ℕ
  pub rejected : ℕ
  pub errors : List String
  pub protected : List String
  pub pending : List PendingValue

unfoldable pub sort_verdict : String → Verdict → Sorted → Sorted
sort_verdict id skip t = record t { skipped = t.skipped + 1; protected = include id t.protected }
sort_verdict id reject t = record t {
  rejected = t.rejected + 1;
  errors = t.errors ++ id ∷ [];
  protected = include id t.protected;
}
sort_verdict id (accept value) t = record t { pending = t.pending ++ value ∷ [] }

unfoldable pub sort_points : (String → HistoryItem → Verdict) → Map HistoryItem → Sorted → Sorted
unfolding sort_verdict
sort_points check [] t = t
sort_points check ((id, point) ∷ latest) t =
    sort_points check latest (sort_verdict id (check id point) t)

-- What the second loop counts and collects.
pub record WriteTally : Type 0 where
  pub next_version : ℕ
  pub entries : ℕ
  pub skipped : ℕ
  pub created : ℕ
  pub updated : ℕ
  pub unchanged : ℕ
  pub marks : Marks
  pub expiry : List ExpiryEntry

-- `time.Unix(clock, ns)`.
abbrev pub source_of : PendingValue → Time
source_of p = p.clock * second + p.ns

-- The state that a pending value installs, before its shard numbers it.
abbrev pub state_of : PendingValue → ℕ → ℕ → ValueState
state_of p version slot = record {
  item_id = p.item_id;
  value = p.value;
  source_time = source_of p;
  source_ns = p.ns;
  last_fetch_at = p.fetched_at;
  last_success_at = p.fetched_at;
  delay = p.delay;
  expire_at = value_expire_at (source_of p) p.delay;
  consecutive_misses = 0;
  metadata_version = p.metadata_version;
  value_version = version;
  last_published_version = 0;
  last_published_time = 0;
  publish_slot = slot;
  publish_policy = publish_policy_for_delay p.delay;
  valid = true;
  scan_sequence = 0;
}

-- The current state stays if it is of the same definition and the point is not newer.
unfoldable pub stays : PendingValue → ValueState → Bool
stays p current =
    current.metadata_version == p.metadata_version && not (source_is_newer p.clock p.ns current)

-- A new state, with the next version, registered for expiry.
unfoldable pub install :
    Bool → ℕ → PendingValue → Bool → ValueShard → WriteTally → ValueShard × WriteTally
install registrar slot p exists s t =
    let version : ℕ = (t.next_version + 1) % int64_mod in
    let state : ValueState = state_of p version slot in
    let entry : ExpiryEntry = record {
      item_id = p.item_id;
      value_version = version;
      expire_at = state.expire_at;
    } in
    (
      insert s state,
      record t {
        next_version = version;
        entries = if exists then t.entries else t.entries + 1;
        created = if exists then t.created else t.created + 1;
        updated = if exists then t.updated + 1 else t.updated;
        expiry = if registrar then t.expiry ++ entry ∷ [] else t.expiry;
      },
    )

-- One pending value, with its shard locked.
unfoldable pub write_step :
    Bool
    → Option MetadataReads
    → (String → ℕ)
    → PendingValue
    → ValueShard
    → WriteTally
    → ValueShard × WriteTally
write_step registrar reads slot p s t =
    if not (current_at_write reads p.item_id p.metadata_version)
    then (s, record t { skipped = t.skipped + 1; marks = mark_stale p.item_id t.marks })
    else elim (lookup p.item_id s.values) [
      | none ↦ install registrar (slot p.item_id) p false s t
      | some current ↦
          if stays p current
          then (
            record s {
              values = put p.item_id (record current { last_fetch_at = p.fetched_at }) s.values;
            },
            record t { unchanged = t.unchanged + 1 },
          )
          else install registrar (slot p.item_id) p true s t
    ]

pub record Applied : Type 0 where
  pub cache : ValueCache
  pub result : ApplyResult
  pub registered : List ExpiryEntry

abbrev pub no_change : BatchStatus → ℕ → ApplyResult
no_change status version = record {
  status = status;
  created = 0;
  updated = 0;
  unchanged = 0;
  rejected = 0;
  skipped = 0;
  stale = 0;
  miss_item_ids = [];
  errors = [];
  metadata_version = version;
}

abbrev pub is_usable : BatchStatus → Bool
is_usable BatchStatus.success = true
is_usable BatchStatus.empty = true
is_usable _ = false

unfoldable pub latest_of : BatchResult → Map HistoryItem
latest_of batch = elim batch.latest [ none ↦ reduce_latest batch.records | some latest ↦ latest ]

unfoldable pub returned_ids : List HistoryItem → Map HistoryItem → List String
returned_ids [] [] = []
returned_ids [] ((id, point) ∷ latest) = id ∷ returned_ids [] latest
returned_ids (point ∷ records) latest = point.item_id ∷ returned_ids records latest

-- The misses: asked for, not protected and not returned, each once in the order of the query.
unfoldable pub miss_ids : List String → List String → List String → List String
unfolding dedup
miss_ids protected returned ids =
    dedup [] (keep (λ id. not (contains id protected) && not (contains id returned)) ids)

-- The query's items, then the latest points: what is pending, and what the loops over them counted.
unfoldable pub marks_of : Option MetadataReads → MetadataSnapshot → BatchResult → Marks
unfolding scan_query
marks_of reads snapshot batch =
    scan_query reads snapshot batch.query.item_ids (record { stale_items = []; protected = [] })

abbrev pub fetch_time : BatchResult → Time
fetch_time batch = if batch.finished_at == 0 then batch.started_at else batch.finished_at

unfoldable pub sort_latest : (String → Option ℕ) → MetadataSnapshot → BatchResult → Marks → Sorted
unfolding sort_points check_point latest_of
sort_latest parse_float snapshot batch marks =
    sort_points (check_point parse_float snapshot (fetch_time batch)) (latest_of batch)
      (record { skipped = 0; rejected = 0; errors = []; protected = marks.protected; pending = [] })

abbrev pub start_tally : ValueCache → Marks → Sorted → WriteTally
start_tally c marks sorted = record {
  next_version = c.next_value_version;
  entries = c.entries;
  skipped = sorted.skipped;
  created = 0;
  updated = 0;
  unchanged = 0;
  marks = record { stale_items = marks.stale_items; protected = sorted.protected };
  expiry = [];
}

module _ (sum64 : String → ℕ) where
  -- The second loop: the pending values, shard by shard.
  unfoldable pub write_pending :
      ValueCache
      → Option MetadataReads
      → List PendingValue
      → WriteTally
      → List ValueShard × WriteTally
  unfolding sweep write_step shard_index publish_slot_of
  write_pending c reads pending t =
      sweep (λ p. shard_index sum64 c p.item_id)
        (write_step c.has_registrar reads (publish_slot_of sum64 c)) keep_shard pending 0 c.shards t

module _ (sum64 : String → ℕ) (parse_float : String → Option ℕ) where
  unfoldable pub apply_points :
      ValueCache → Option MetadataReads → BatchResult → MetadataSnapshot → Applied
  apply_points c reads batch snapshot =
      let marks : Marks = marks_of reads snapshot batch in
      let sorted : Sorted = sort_latest parse_float snapshot batch marks in
      let (shards', t) = write_pending sum64 c reads sorted.pending (start_tally c marks sorted) in
      let stale : ℕ = length t.marks.stale_items in
      let misses : List String =
        if stale == 0
        then miss_ids t.marks.protected (returned_ids batch.records (latest_of batch))
            batch.query.item_ids
        else [] in
      record {
        cache = record c {
          shards = shards';
          next_value_version = t.next_version;
          entries = t.entries;
        };
        result = record {
          status = batch.status;
          created = t.created;
          updated = t.updated;
          unchanged = t.unchanged;
          rejected = sorted.rejected;
          skipped = t.skipped;
          stale = stale;
          miss_item_ids = misses;
          errors = sorted.errors;
          metadata_version = snapshot.version;
        };
        registered = t.expiry;
      }

  -- A result that is not complete, or no snapshot, changes nothing.
  unfoldable pub apply_batch :
      ValueCache → Option MetadataReads → BatchResult → Option MetadataSnapshot → Applied
  unfolding apply_points
  apply_batch c reads batch none =
      let points : ℕ = elim batch.latest [ none ↦ 0 | some latest ↦ length latest ] in
      let skipped : ℕ = if points == 0 then length batch.records else points in
      let nothing : ApplyResult = no_change batch.status 0 in
      record {
        cache = c;
        result = if is_usable batch.status then record nothing { skipped = skipped } else nothing;
        registered = [];
      }
  apply_batch c reads batch (some snapshot) =
      if is_usable batch.status
      then apply_points c reads batch snapshot
      else record { cache = c; result = no_change batch.status snapshot.version; registered = [] }
