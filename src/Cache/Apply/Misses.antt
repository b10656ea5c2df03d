-- ===== src/Cache/Apply/Misses.antt =====
-- internal/cache/value_cache.go: the misses that ApplyBatch reports.
use zabbix_exporter.Prelude.{
  ℕ, ◌<◌, ◌≡◌, refl, inl, inr, String, Bool, true, false, not, ◌&&◌, List, [], ◌∷◌, Option, none,
  some, ◌==◌, keep, length, contains, Map, lookup, text_dec, All, ==_iff, arith, Bool-cases,
  Option-cases,
}
use zabbix_exporter.Zabbix.History.{BatchResult, HistoryItem}
use zabbix_exporter.Metadata.Types.{MetadataSnapshot}
use zabbix_exporter.Cache.Values.{ValueCache, dedup}
use zabbix_exporter.Cache.Apply.{
  MetadataReads, WriteTally, Sorted, Marks, marks_of, sort_latest, start_tally, write_pending,
  apply_points, apply_batch, is_usable, check_point, fetch_time, latest_of, returned_ids, miss_ids,
}
use zabbix_exporter.Cache.Apply.Stale.{IsKnown, IsCurrent, IsClean, write_pending-IsClean}

contains-dedup :
    (id : String) (seen ids : List String)
    → contains id (dedup seen ids) ≡ true
    → contains id ids ≡ true
unfolding contains dedup
contains-dedup id seen [] h = cc
contains-dedup id seen (j ∷ ids) h =
    ground (arith, contains-dedup id seen ids, contains-dedup id (j ∷ seen) ids)

contains-keep :
    (id : String) (p : String → Bool) (ids : List String)
    → contains id (keep p ids) ≡ true
    → (contains id ids ≡ true) × (p id ≡ true)
unfolding contains
contains-keep id p [] h = cc
contains-keep id p (j ∷ ids) h = ground (arith, contains-keep id p ids)

contains-miss_ids :
    (id : String) (protected returned ids : List String)
    → contains id (miss_ids protected returned ids) ≡ true
    → (contains id ids ≡ true) × (contains id protected ≡ false) × (contains id returned ≡ false)
unfolding miss_ids
contains-miss_ids id protected returned ids h =
    let kept =
      contains-keep id (λ j. not (contains j protected) && not (contains j returned)) ids
        (contains-dedup id [] _ h) in
    let test : (not (contains id protected) && not (contains id returned)) ≡ true = kept.1 in
    (kept.0, ground arith, ground arith)

nothing_missed : (id : String) → contains id [] ≡ true → ⊥
unfolding contains
nothing_missed id h = cc

-- The latest points that the answer brings along.
abbrev pub given_latest : BatchResult → Map HistoryItem
given_latest batch = elim batch.latest [ none ↦ [] | some latest ↦ latest ]

-- An item that is not returned has no record and no latest point.
returned_ids-absent :
    (id : String) (records : List HistoryItem) (latest : Map HistoryItem)
    → contains id (returned_ids records latest) ≡ false
    → All (λ r. r.item_id ≡ id → ⊥) records × (lookup id latest ≡ none)
unfolding returned_ids contains lookup
returned_ids-absent id [] [] h = (tt, refl)
returned_ids-absent id [] ((j, point) ∷ latest) h = elim (text_dec j id) [
  | yes e ↦ absurd (ground arith)
  | no n ↦ (tt, ground (arith, (returned_ids-absent id [] latest (ground arith)).1))
]
returned_ids-absent id (point ∷ records) latest h = elim (text_dec point.item_id id) [
  | yes e ↦ absurd (ground arith)
  | no n ↦ let rest = returned_ids-absent id records latest (ground arith) in ((n, rest.0), rest.1)
]

-- The given latest points are among those that the batch is reduced to.
absent_given :
    (id : String) (batch : BatchResult)
    → lookup id (latest_of batch) ≡ none
    → lookup id (given_latest batch) ≡ none
unfolding latest_of lookup
absent_given id batch h = elim (Option-cases batch.latest) [
  | inl e ↦ rw e refl
  | inr (m, e) ↦ rw e (rw (e, latest_of) at h)
]

module _ (sum64 : String → ℕ) (parse_float : String → Option ℕ) (c : ValueCache)
    (full : 0 < length c.shards) (reads : Option MetadataReads) (batch : BatchResult)
    (snapshot : MetadataSnapshot) where
  -- What a reported miss says of the answer and of the batch.
  abbrev pub IsMiss : String → Type 0
  IsMiss id =
      (contains id batch.query.item_ids ≡ true)
      × All (λ r. r.item_id ≡ id → ⊥) batch.records
      × (lookup id (given_latest batch) ≡ none)
      × All (IsKnown reads snapshot) batch.query.item_ids
      × All (λ kv. IsCurrent reads (check_point parse_float snapshot (fetch_time batch) kv.0 kv.1))
          (latest_of batch)

  apply_points-misses :
      (id : String)
      → let r = (apply_points sum64 parse_float c reads batch snapshot).result in
        contains id r.miss_item_ids ≡ true → IsMiss id × (r.stale ≡ 0)
  unfolding apply_points IsClean
  apply_points-misses id h =
      let marks : Marks = marks_of reads snapshot batch in
      let sorted : Sorted = sort_latest parse_float snapshot batch marks in
      let t : WriteTally =
        (write_pending sum64 c reads sorted.pending (start_tally c marks sorted)).1 in
      elim (Bool-cases (length t.marks.stale_items == 0)) [
        | inr f ↦ absurd (nothing_missed id (rw f at h))
        | inl z ↦
            let missed =
              contains-miss_ids id t.marks.protected (returned_ids batch.records (latest_of batch))
                batch.query.item_ids (rw z at h) in
            let none_stale : length t.marks.stale_items ≡ 0 =
              (==_iff (length t.marks.stale_items) 0).0 z in
            let absent = returned_ids-absent id batch.records (latest_of batch) missed.2 in
            let current =
              write_pending-IsClean sum64 parse_float c full reads batch snapshot none_stale in
            ((missed.0, absent.0, absent_given id batch absent.1, current.0, current.1), none_stale)
      ]

  -- A miss of an applied batch, on a cache with a shard, is an item that the query asked for, with no
  -- record and no latest point in the answer. A batch that reports one is complete and has no stale
  -- item: the snapshot has all items of the query in the definitions current at the query, and every
  -- latest point that was to be written is of a definition that was current at its write.
  pub apply_batch-misses :
      (id : String)
      → contains id
          (apply_batch sum64 parse_float c reads batch (some snapshot)).result.miss_item_ids
        ≡ true
      → IsMiss id
        × ((apply_batch sum64 parse_float c reads batch (some snapshot)).result.stale ≡ 0)
        × (is_usable batch.status ≡ true)
  unfolding apply_batch
  apply_batch-misses id h = elim (Bool-cases (is_usable batch.status)) [
    | inr f ↦ absurd (nothing_missed id (rw (f, apply_batch) at h))
    | inl t ↦
        let r = apply_points-misses id (rw (t, apply_batch) at h) in
        (r.0, rw (t, apply_batch) r.1, t)
  ]
