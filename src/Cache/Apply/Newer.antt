-- ===== src/Cache/Apply/Newer.antt =====
-- internal/cache/value_cache.go: the values that were there before ApplyBatch, and what it
-- replaces them by.
use zabbix_exporter.Prelude.{
  ℕ, ◌+◌, ◌*◌, ◌%◌, ◌<◌, ◌≤◌, ◌≡◌, refl, sym, ◌∙◌, ◌⊎◌, inl, inr, String, Bool, true, false, ◌&&◌,
  ◌||◌, List, [], ◌∷◌, Option, none, some, ltb, ◌==◌, text_dec, All, All-append, length, get_or,
  Map, lookup, lookup-put, subst, arith, Option-cases, Bool-cases,
}
use zabbix_exporter.Time.{Time, second, unix, int64_mod}
use zabbix_exporter.Zabbix.History.{HistoryItem, BatchResult}
use zabbix_exporter.Metadata.Types.{MetadataSnapshot, ItemMetadata}
use zabbix_exporter.Cache.State.{ValueState, source_is_newer}
use zabbix_exporter.Cache.Shard.{ValueShard, empty_shard}
use zabbix_exporter.Cache.Sweep.At.{at-sweep}
use zabbix_exporter.Cache.Values.{ValueCache, shard_index, publish_slot_of, load, keep_shard}
use zabbix_exporter.Cache.Apply.{
  PendingValue, MetadataReads, WriteTally, Verdict, Sorted, Marks, marks_of, sort_latest,
  start_tally, state_of, stays, install, write_step, write_pending, fetch_time, latest_of,
  apply_points, apply_batch, is_usable, check_value, check_point, sort_verdict, sort_points,
}
use zabbix_exporter.Cache.Apply.Steps.{lookup-insert, write_step-cases}
use zabbix_exporter.Cache.Apply.Writes.{load-write_pending}

-- The point of `v` is not older than that of `o`.
abbrev pub IsNotOlder : ValueState → ValueState → Type 0
IsNotOlder o v =
    (unix o.source_time < unix v.source_time)
    ⊎ ((unix o.source_time ≡ unix v.source_time) × (o.source_ns ≤ v.source_ns))

-- `v` still is the point of `o`, or one of the definition `m`; of the same definition, not older.
abbrev pub IsSince : ValueState → ℕ → ValueState → Type 0
IsSince o m v =
    ((v.metadata_version ≡ o.metadata_version) ⊎ (v.metadata_version ≡ m))
    × (v.metadata_version ≡ o.metadata_version → IsNotOlder o v)

abbrev StoresSince : ValueState → ℕ → String → ValueShard → WriteTally → Type 0
StoresSince o m id s t = (v : ValueState) × (lookup id s.values ≡ some v) × IsSince o m v

-- A pending value as the check lets it through, against the definition `m` of the item `id`.
abbrev IsChecked : String → ℕ → PendingValue → Type 0
IsChecked id m p = (p.ns < second) × (p.item_id ≡ id → p.metadata_version ≡ m)

unix_of_source : (clock ns : ℕ) → ns < second → unix (clock * second + ns) ≡ clock
unix_of_source clock ns h = omega arith

newer_trans :
    (a b c d clock ns : ℕ)
    → (a < c) ⊎ ((a ≡ c) × (b ≤ d))
    → (ltb c clock || (clock == c && ltb d ns)) ≡ true
    → (a < clock) ⊎ ((a ≡ clock) × (b ≤ ns))
newer_trans a b c d clock ns h e = ground arith

replaced-newer :
    (p : PendingValue) (cur : ValueState)
    → stays p cur ≡ false
    → cur.metadata_version ≡ p.metadata_version
    → source_is_newer p.clock p.ns cur ≡ true
unfolding stays
replaced-newer p cur f e = ground arith

-- What replaces a state is of another definition, or newer.
IsSince-install :
    (o cur : ValueState) (m : ℕ) (p : PendingValue) (version slot n : ℕ)
    → p.ns < second
    → p.metadata_version ≡ m
    → IsSince o m cur
    → stays p cur ≡ false
    → IsSince o m (record (state_of p version slot) { scan_sequence = n })
unfolding source_is_newer
IsSince-install o cur m p version slot n ns same h f = (
  inr same,
  λ e.
      let old : cur.metadata_version ≡ o.metadata_version = ground arith in
      let newer = replaced-newer p cur f (old ∙ sym e) in
      rw (unix_of_source p.clock p.ns ns) (
        newer_trans (unix o.source_time) o.source_ns (unix cur.source_time) cur.source_ns p.clock
          p.ns (h.1 old) newer),
)

module _ (o : ValueState) (m : ℕ) (id : String) (registrar : Bool) (reads : Option MetadataReads)
    (slot : String → ℕ) where
  install-StoresSince :
      (p : PendingValue) (b : Bool) (s : ValueShard) (t : WriteTally)
      → ((cur : ValueState) → lookup p.item_id s.values ≡ some cur → stays p cur ≡ false)
      → IsChecked id m p
      → StoresSince o m id s t
      → StoresSince o m id
          (install registrar (slot p.item_id) p b s t).0
          (install registrar (slot p.item_id) p b s t).1
  unfolding install
  install-StoresSince p b s t fresh g (cur, e, h) =
      let version : ℕ = (t.next_version + 1) % int64_mod in
      let state : ValueState = state_of p version (slot p.item_id) in
      let (n, at) = lookup-insert s state id in
      elim (text_dec p.item_id id) [
        | yes same ↦ (
          record state { scan_sequence = n },
          ground arith,
          IsSince-install o cur m p version (slot p.item_id) n g.0 (g.1 same) h
              (fresh cur (ground arith)),
        )
        | no other ↦ (cur, ground arith, h)
      ]

  write_step-StoresSince :
      (p : PendingValue) (s : ValueShard) (t : WriteTally)
      → IsChecked id m p
      → StoresSince o m id s t
      → StoresSince o m id
          (write_step registrar reads slot p s t).0
          (write_step registrar reads slot p s t).1
  write_step-StoresSince p s t g (cur, e, h) = elim (write_step-cases registrar reads slot p s t) [
    | inl (same, kept) ↦ (cur, rw same e, h)
    | inr (inl (current, at, values, kept)) ↦
        let after =
          lookup-put p.item_id id (record current { last_fetch_at = p.fetched_at }) s.values in
        elim (text_dec p.item_id id) [
          | yes same ↦ (
            record current { last_fetch_at = p.fetched_at },
            ground arith,
            let one : cur ≡ current = ground arith in subst (IsSince o m) one h,
          )
          | no other ↦ (cur, ground arith, h)
        ]
    | inr (inr (b, fresh, done)) ↦ rw done (install-StoresSince p b s t fresh g (cur, e, h))
  ]

-- The version of an item's definition in the snapshot.
abbrev version_in : MetadataSnapshot → String → ℕ
version_in snapshot id = elim (lookup id snapshot.items) [ none ↦ 0 | some item ↦ item.version ]

check_value-accept :
    (item : ItemMetadata) (at : Time) (key : String) (point : HistoryItem) (o : Option ℕ)
    (p : PendingValue)
    → check_value item at key point o ≡ Verdict.accept p
    → (p.ns < second) × (p.item_id ≡ key) × (p.metadata_version ≡ item.version)
unfolding check_value
check_value-accept item at key point none p e = cc
check_value-accept item at key point (some bits) p e = ground arith

module _ (parse_float : String → Option ℕ) (snapshot : MetadataSnapshot) (at : Time) where
  check_point-IsChecked :
      (key : String) (point : HistoryItem) (p : PendingValue) (id : String)
      → check_point parse_float snapshot at key point ≡ Verdict.accept p
      → IsChecked id (version_in snapshot id) p
  unfolding check_point
  check_point-IsChecked key point p id e = elim (Option-cases (lookup key snapshot.items)) [
    | inl n ↦ absurd (ground arith)
    | inr (item, n) ↦
        let ok = check_value-accept item at key point (parse_float point.value) p (ground arith) in
        (ok.0, λ same. ground arith)
  ]

Verdict-cases :
    (x : Verdict)
    → ((p : PendingValue) × (x ≡ Verdict.accept p)) ⊎ ((x ≡ Verdict.skip) ⊎ (x ≡ Verdict.reject))
Verdict-cases Verdict.skip = inr (inl refl)
Verdict-cases Verdict.reject = inr (inr refl)
Verdict-cases (Verdict.accept p) = inl (p, refl)

-- What the first loop lets through has passed the check.
sort_points-All :
    (P : PendingValue → Type 0) (check : String → HistoryItem → Verdict) (latest : Map HistoryItem)
    (t : Sorted)
    → ((key : String) (point : HistoryItem) (p : PendingValue)
        → check key point ≡ Verdict.accept p
        → P p)
    → All P t.pending
    → All P (sort_points check latest t).pending
unfolding sort_points sort_verdict
sort_points-All P check [] t ok h = h
sort_points-All P check ((key, point) ∷ latest) t ok h =
    sort_points-All P check latest (sort_verdict key (check key point) t) ok
      (elim (Verdict-cases (check key point)) [
        | inl (p, e) ↦ rw e (All-append P t.pending (p ∷ []) h (ok key point p e, tt))
        | inr (inl e) ↦ rw e h
        | inr (inr e) ↦ rw e h
      ])

module _ (sum64 : String → ℕ) (c : ValueCache) (full : 0 < length c.shards) (o : ValueState)
    (id : String) where
  write_pending-StoresSince :
      (m : ℕ) (reads : Option MetadataReads) (pending : List PendingValue) (t : WriteTally)
      → All (IsChecked id m) pending
      → load sum64 c id ≡ some o
      → StoresSince o m id
          (get_or (write_pending sum64 c reads pending t).0 (shard_index sum64 c id) empty_shard)
          (write_pending sum64 c reads pending t).1
  unfolding write_pending shard_index load
  write_pending-StoresSince m reads pending t ok e =
      at-sweep (λ p. shard_index sum64 c p.item_id)
        (write_step c.has_registrar reads (publish_slot_of sum64 c)) keep_shard (IsChecked id m)
        (StoresSince o m id)
        (λ p s r g h.
          write_step-StoresSince o m id c.has_registrar reads (publish_slot_of sum64 c) p s r g h)
        (λ s r h. h) (λ p s s' r h. h) pending 0 (shard_index sum64 c id) c.shards t ok
        (omega arith) (o, e, (inl refl, λ same. inr (refl, omega arith)))

  load-apply_points :
      (parse_float : String → Option ℕ) (reads : Option MetadataReads) (batch : BatchResult)
      (snapshot : MetadataSnapshot)
      → load sum64 c id ≡ some o
      → (v : ValueState) × (load sum64
            (apply_points sum64 parse_float c reads batch snapshot).cache
            id
          ≡ some v)
        × (v.metadata_version ≡ o.metadata_version → IsNotOlder o v)
  unfolding apply_points sort_latest
  load-apply_points parse_float reads batch snapshot e =
      let marks : Marks = marks_of reads snapshot batch in
      let sorted : Sorted = sort_latest parse_float snapshot batch marks in
      let start : WriteTally = start_tally c marks sorted in
      let m : ℕ = version_in snapshot id in
      let ok : All (IsChecked id m) sorted.pending =
        sort_points-All (IsChecked id m) (check_point parse_float snapshot (fetch_time batch))
          (latest_of batch)
          (record {
            skipped = 0;
            rejected = 0;
            errors = [];
            protected = marks.protected;
            pending = [];
          })
          (λ key point p f.
            check_point-IsChecked parse_float snapshot (fetch_time batch) key point p id f)
          tt in
      let t : WriteTally = (write_pending sum64 c reads sorted.pending start).1 in
      let (v, l, h) = write_pending-StoresSince m reads sorted.pending start ok e in
      (
        v,
        load-write_pending sum64 c reads sorted.pending start t.next_version t.entries id ∙ l,
        h.1,
      )

  -- A value in the cache is still there after a batch: unchanged in its source time, or replaced by
  -- one of another definition of the item, or by a point that is not older.
  pub load-apply_batch :
      (parse_float : String → Option ℕ) (reads : Option MetadataReads) (batch : BatchResult)
      (snapshot : Option MetadataSnapshot)
      → load sum64 c id ≡ some o
      → (v : ValueState) × (load sum64
            (apply_batch sum64 parse_float c reads batch snapshot).cache
            id
          ≡ some v)
        × (v.metadata_version ≡ o.metadata_version → IsNotOlder o v)
  unfolding apply_batch apply_points
  load-apply_batch parse_float reads batch none e = (o, e, λ same. inr (refl, omega arith))
  load-apply_batch parse_float reads batch (some snapshot) e =
      elim (Bool-cases (is_usable batch.status)) [
        | inr f ↦ rw (f, apply_batch) (o, e, λ same. inr (refl, omega arith))
        | inl t ↦ rw (t, apply_batch) (load-apply_points parse_float reads batch snapshot e)
      ]
