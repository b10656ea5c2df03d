-- ===== src/Cache/Apply/Stale.antt =====
-- internal/cache/value_cache.go: the definitions that ApplyBatch checks, and the items that it marks
-- as stale.
use zabbix_exporter.Prelude.{
  ℕ, ◌<◌, ◌≡◌, subst, inl, inr, String, Bool, true, List, [], ◌∷◌, ◌++◌, Option, some, length,
  contains, include, Map, lookup, All, arith, Bool-cases, Option-cases,
}
use zabbix_exporter.Zabbix.History.{BatchResult, HistoryItem}
use zabbix_exporter.Metadata.Types.{MetadataSnapshot, ItemMetadata}
use zabbix_exporter.Cache.Shard.{ValueShard}
use zabbix_exporter.Cache.Sweep.Clean.{clean-sweep}
use zabbix_exporter.Cache.Values.{ValueCache, shard_index, publish_slot_of, keep_shard}
use zabbix_exporter.Cache.Apply.{
  PendingValue, MetadataReads, WriteTally, Sorted, Marks, Verdict, marks_of, mark_stale, is_fresh,
  scan_query, sort_latest, start_tally, install, write_step, write_pending, check_point, fetch_time,
  sort_points, sort_verdict, latest_of, current_at_query, current_at_write,
}

-- The snapshot has the item, in the definition that the metadata source has at the query.
abbrev pub IsKnown : Option MetadataReads → MetadataSnapshot → String → Type 0
IsKnown reads snapshot id =
    (item : ItemMetadata) × (lookup id snapshot.items ≡ some item)
    × (current_at_query reads id item.version ≡ true)

-- A point that is to be written is one of a definition that is current at its write.
abbrev pub IsCurrent : Option MetadataReads → Verdict → Type 0
IsCurrent reads Verdict.skip = Unit
IsCurrent reads Verdict.reject = Unit
IsCurrent reads (Verdict.accept p) = current_at_write reads p.item_id p.metadata_version ≡ true

unfoldable pub IsClean : Marks → Type 0
IsClean m = length m.stale_items ≡ 0

include-length : (id : String) (ids : List String) → length (include id ids) ≡ 0 → ⊥
unfolding include contains
include-length id [] h = absurd (omega arith)
include-length id (j ∷ ids) h = elim (Bool-cases (contains id (j ∷ ids))) [
  | inl t ↦ absurd (let g = rw (t, include) at h in omega (arith, g))
  | inr f ↦ absurd (let g = rw (f, include) at h in omega (arith, g))
]

mark_stale-length : (id : String) (m : Marks) → IsClean (mark_stale id m) → ⊥
unfolding mark_stale IsClean
mark_stale-length id m h = include-length id m.stale_items h

is_fresh-IsKnown :
    (reads : Option MetadataReads) (snapshot : MetadataSnapshot) (id : String)
    → is_fresh reads snapshot id ≡ true
    → IsKnown reads snapshot id
unfolding is_fresh
is_fresh-IsKnown reads snapshot id h = elim (Option-cases (lookup id snapshot.items)) [
  | inl e ↦ absurd (ground arith)
  | inr (item, e) ↦ (item, e, rw (e, is_fresh) at h)
]

-- Where no item of the query was stale, all of them were known.
scan_query-IsKnown :
    (reads : Option MetadataReads) (snapshot : MetadataSnapshot) (ids : List String) (m : Marks)
    → IsClean (scan_query reads snapshot ids m)
    → IsClean m × All (IsKnown reads snapshot) ids
unfolding scan_query
scan_query-IsKnown reads snapshot [] m h = (h, tt)
scan_query-IsKnown reads snapshot (id ∷ ids) m h = elim (Bool-cases (is_fresh reads snapshot id)) [
  | inl t ↦
      let rest = scan_query-IsKnown reads snapshot ids m (rw (t, scan_query) at h) in
      (rest.0, (is_fresh-IsKnown reads snapshot id t, rest.1))
  | inr f ↦
      let rest =
        scan_query-IsKnown reads snapshot ids (mark_stale id m) (rw (f, scan_query) at h) in
      absurd (mark_stale-length id m rest.0)
]

IsWritable : Option MetadataReads → PendingValue → Type 0
IsWritable reads p = current_at_write reads p.item_id p.metadata_version ≡ true

All-last :
    (P : PendingValue → Type 0) (ps : List PendingValue) (p : PendingValue)
    → All P (ps ++ p ∷ [])
    → All P ps × P p
All-last P [] p h = (tt, h.0)
All-last P (q ∷ ps) p h = let rest = All-last P ps p h.1 in ((h.0, rest.0), rest.1)

sort_verdict-IsCurrent :
    (reads : Option MetadataReads) (id : String) (v : Verdict) (t : Sorted)
    → All (IsWritable reads) (sort_verdict id v t).pending
    → All (IsWritable reads) t.pending × IsCurrent reads v
unfolding sort_verdict IsWritable
sort_verdict-IsCurrent reads id Verdict.skip t h = (h, tt)
sort_verdict-IsCurrent reads id Verdict.reject t h = (h, tt)
sort_verdict-IsCurrent reads id (Verdict.accept p) t h = All-last (IsWritable reads) t.pending p h

sort_points-IsCurrent :
    (reads : Option MetadataReads) (check : String → HistoryItem → Verdict)
    (latest : Map HistoryItem) (t : Sorted)
    → All (IsWritable reads) (sort_points check latest t).pending
    → All (IsWritable reads) t.pending × All (λ kv. IsCurrent reads (check kv.0 kv.1)) latest
unfolding sort_points
sort_points-IsCurrent reads check [] t h = (h, tt)
sort_points-IsCurrent reads check ((id, point) ∷ latest) t h =
    let rest = sort_points-IsCurrent reads check latest (sort_verdict id (check id point) t) h in
    let here = sort_verdict-IsCurrent reads id (check id point) t rest.0 in
    (here.0, (here.1, rest.1))

write_step-marks :
    (registrar : Bool) (reads : Option MetadataReads) (slot : String → ℕ) (p : PendingValue)
    (s : ValueShard) (t : WriteTally)
    → current_at_write reads p.item_id p.metadata_version ≡ true
    → (write_step registrar reads slot p s t).1.marks ≡ t.marks
unfolding write_step install
write_step-marks registrar reads slot p s t u = ground arith

write_step-IsClean :
    (registrar : Bool) (reads : Option MetadataReads) (slot : String → ℕ) (p : PendingValue)
    (s : ValueShard) (t : WriteTally)
    → IsClean (write_step registrar reads slot p s t).1.marks
    → IsClean t.marks × IsWritable reads p
unfolding write_step install IsWritable
write_step-IsClean registrar reads slot p s t h =
    elim (Bool-cases (current_at_write reads p.item_id p.metadata_version)) [
      | inr f ↦ absurd (mark_stale-length p.item_id t.marks (rw (f, write_step) at h))
      | inl u ↦ (subst IsClean (write_step-marks registrar reads slot p s t u) h, u)
    ]

module _ (sum64 : String → ℕ) (parse_float : String → Option ℕ) (c : ValueCache)
    (full : 0 < length c.shards) (reads : Option MetadataReads) (batch : BatchResult)
    (snapshot : MetadataSnapshot) where
  -- Where nothing was stale at the end of the writes, all that was checked was current.
  pub write_pending-IsClean :
      let marks = marks_of reads snapshot batch in
      let sorted = sort_latest parse_float snapshot batch marks in
      IsClean (write_pending sum64 c reads sorted.pending (start_tally c marks sorted)).1.marks
      → All (IsKnown reads snapshot) batch.query.item_ids
        × All
            (λ kv. IsCurrent reads (check_point parse_float snapshot (fetch_time batch) kv.0 kv.1))
            (latest_of batch)
  unfolding write_pending sort_latest marks_of shard_index IsClean
  write_pending-IsClean h =
      let marks : Marks = marks_of reads snapshot batch in
      let sorted : Sorted = sort_latest parse_float snapshot batch marks in
      let written =
        clean-sweep (λ p. shard_index sum64 c p.item_id)
          (write_step c.has_registrar reads (publish_slot_of sum64 c)) keep_shard (IsWritable reads)
          (λ t. IsClean t.marks)
          (write_step-IsClean c.has_registrar reads (publish_slot_of sum64 c)) sorted.pending
          c.shards (start_tally c marks sorted) (λ p. omega arith) h in
      (
        (scan_query-IsKnown reads snapshot batch.query.item_ids
            (record { stale_items = []; protected = [] }) written.0).1,
        (sort_points-IsCurrent reads (check_point parse_float snapshot (fetch_time batch))
            (latest_of batch)
            (record {
              skipped = 0;
              rejected = 0;
              errors = [];
              protected = marks.protected;
              pending = [];
            })
            written.1).1,
      )
