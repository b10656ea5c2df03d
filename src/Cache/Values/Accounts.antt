-- ===== src/Cache/Values/Accounts.antt =====
-- The books of the cache: the entry counter against the shards, and the tallies of the results.
use zabbix_exporter.Prelude.{
  ℕ, suc, ◌+◌, ◌-◌, ◌<◌, ◌≡◌, refl, ap, String, true, false, List, [], ◌∷◌, none, some, ◌==◌, keep,
  length, All, total, lookup, arith, Option-cases, inl, inr,
}
use zabbix_exporter.Cache.State.{ValueState}
use zabbix_exporter.Cache.Shard.{ValueShard, delete, compact_order}
use zabbix_exporter.Cache.Shard.Valid.{
  IsValid, IsCompact, delete-IsValid, compact_order-IsValid, compact_order-IsCompact, length-delete,
}
use zabbix_exporter.Cache.Sweep.{run_bucket, visit, sweep}
use zabbix_exporter.Cache.Sweep.Laws.{
  All-sweep, total-sweep, tally-sweep, count-sweep, length-sweep,
}
use zabbix_exporter.Cache.Values.{
  ValueCache, DeleteReason, DeleteResult, DeleteTally, VersionedItem, delete_step,
  delete_versioned_step, dedup, shard_index, delete_items, delete_versioned, no_deletes,
}
use zabbix_exporter.Cache.Values.Effects.{compact_order-values}

abbrev pub live_values : ValueCache → ℕ
live_values c = total (λ s. length s.values) c.shards

pub record IsConsistent (c : ValueCache) : Type 0 where
  pub full : 0 < length c.shards
  pub valid : All IsValid c.shards
  pub compact : All IsCompact c.shards
  pub counted : c.entries ≡ live_values c

abbrev pub delete_total : DeleteResult → ℕ
delete_total r = r.deleted + r.stale + r.not_found

delete_versioned_step-IsValid :
    (q : VersionedItem) (s : ValueShard) (t : DeleteTally)
    → IsValid s
    → IsValid (delete_versioned_step q s t).0
      × (length (delete_versioned_step q s t).0.values
            + (delete_versioned_step q s t).1.result.deleted
          ≡ length s.values + t.result.deleted)
unfolding delete_versioned_step
delete_versioned_step-IsValid q s t h = elim (Option-cases (lookup q.item_id s.values)) [
  | inl e ↦ ground arith
  | inr (v, e) ↦ ground (arith, delete-IsValid s q.item_id h, length-delete s q.item_id v e h)
]

delete-none : (s : ValueShard) (id : String) → lookup id s.values ≡ none → delete s id ≡ (s, false)
unfolding delete
delete-none s id e = rw (e, delete) refl

delete-some :
    (s : ValueShard) (id : String) (v : ValueState)
    → lookup id s.values ≡ some v
    → (delete s id).1 ≡ true
unfolding delete
delete-some s id v e = rw (e, delete) refl

delete_step-IsValid :
    (q : String) (s : ValueShard) (t : DeleteTally)
    → IsValid s
    → IsValid (delete_step q s t).0
      × (length (delete_step q s t).0.values + (delete_step q s t).1.result.deleted
          ≡ length s.values + t.result.deleted)
unfolding delete_step
delete_step-IsValid q s t h = elim (Option-cases (lookup q s.values)) [
  | inl e ↦ rw (delete-none s q e) (h, refl)
  | inr (v, e) ↦
      rw (delete-some s q v e) (delete-IsValid s q h, omega (arith, length-delete s q v e h))
]

compact_order-keeps :
    (s : ValueShard)
    → IsValid s
    → IsValid (compact_order s) × (length (compact_order s).values ≡ length s.values)
compact_order-keeps s h = (compact_order-IsValid s h, ap length (compact_order-values s))

-- The atomic counter falls by one with each deletion.
abbrev Counts : ℕ → DeleteTally → Type 0
Counts n t = t.entries ≡ n - t.result.deleted

delete_step-Counts :
    (n : ℕ) (q : String) (s : ValueShard) (t : DeleteTally)
    → Counts n t
    → Counts n (delete_step q s t).1
unfolding delete_step
delete_step-Counts n q s t h = ground arith

delete_versioned_step-Counts :
    (n : ℕ) (q : VersionedItem) (s : ValueShard) (t : DeleteTally)
    → Counts n t
    → Counts n (delete_versioned_step q s t).1
unfolding delete_versioned_step
delete_versioned_step-Counts n q s t h = ground arith

delete_step-total :
    (q : String) (s : ValueShard) (t : DeleteTally)
    → delete_total (delete_step q s t).1.result ≡ delete_total t.result + 1
unfolding delete_step
delete_step-total q s t = ground arith

delete_versioned_step-total :
    (q : VersionedItem) (s : ValueShard) (t : DeleteTally)
    → delete_total (delete_versioned_step q s t).1.result ≡ delete_total t.result + 1
unfolding delete_versioned_step
delete_versioned_step-total q s t = ground arith

-- The compaction of the scan order: a visited shard is compacted before its lock is released, and
-- a shard that is not visited keeps its order.
module _ (Q R : Type 0) (index : Q → ℕ) (step : Q → ValueShard → R → ValueShard × R) where
  compacted_run :
      (qs : List Q) (s : ValueShard) (r : R)
      → IsCompact s
      → IsCompact (visit index step compact_order qs s r).0
  unfolding visit
  compacted_run [] s r h = h
  compacted_run (q ∷ qs) s r h =
      compact_order-IsCompact (run_bucket index step compact_order (q ∷ qs) s r).0

  compacted :
      (qs : List Q) (i : ℕ) (ss : List ValueShard) (r : R)
      → All IsCompact ss
      → All IsCompact (sweep index step compact_order qs i ss r).0
  unfolding sweep
  compacted qs i [] r h = h
  compacted qs i (s ∷ ss) r h = (
    compacted_run (keep (λ q. index q == i) qs) s r h.0,
    compacted qs (suc i) ss (visit index step compact_order (keep (λ q. index q == i) qs) s r).1
        h.1,
  )

module _ (sum64 : String → ℕ) (c : ValueCache) (h : IsConsistent c) where
  in_range : (id : String) → shard_index sum64 c id < length c.shards
  unfolding shard_index
  in_range id = omega (arith, h.full)

  -- A deletion by version keeps the books: the shards stay valid and compact, the entry counter
  -- stays the number of stored values, which falls by the deletions that the result reports, and
  -- every request is reported once.
  pub delete_versioned-IsConsistent :
      (items : List VersionedItem) (reason : DeleteReason)
      → let (c', r) = delete_versioned sum64 c items reason in
        IsConsistent c'
        × (live_values c' + r.deleted ≡ live_values c)
        × (delete_total r ≡ length items)
  unfolding delete_versioned
  delete_versioned-IsConsistent items reason =
      let index : VersionedItem → ℕ = λ q. shard_index sum64 c q.item_id in
      let start : DeleteTally = record { result = no_deletes reason; entries = c.entries } in
      let books =
        total-sweep index delete_versioned_step compact_order IsValid (λ s. length s.values)
          (λ t. t.result.deleted) delete_versioned_step-IsValid compact_order-keeps items 0 c.shards
          start h.valid in
      let counts =
        tally-sweep index delete_versioned_step compact_order (Counts c.entries)
          (delete_versioned_step-Counts c.entries) items 0 c.shards start (omega arith) in
      let sizes = length-sweep index delete_versioned_step compact_order items 0 c.shards start in
      (
        record {
          full = omega (arith, sizes, h.full);
          valid =
              All-sweep index delete_versioned_step compact_order IsValid
                (λ q s r v. (delete_versioned_step-IsValid q s r v).0) compact_order-IsValid items 0
                c.shards start h.valid;
          compact =
              compacted VersionedItem DeleteTally index delete_versioned_step items 0 c.shards start
                h.compact;
          counted = omega (arith, books, counts, h.counted);
        },
        omega (arith, books),
        omega (
          arith,
          count-sweep index delete_versioned_step compact_order (λ t. delete_total t.result)
              delete_versioned_step-total items c.shards start (λ q. in_range q.item_id),
        ),
      )

  -- The same for a deletion by item, where an item that is named twice is one request.
  pub delete_items-IsConsistent :
      (ids : List String) (reason : DeleteReason)
      → let (c', r) = delete_items sum64 c ids reason in
        IsConsistent c'
        × (live_values c' + r.deleted ≡ live_values c)
        × (delete_total r ≡ length (dedup [] ids))
  unfolding delete_items
  delete_items-IsConsistent ids reason =
      let index : String → ℕ = shard_index sum64 c in
      let start : DeleteTally = record { result = no_deletes reason; entries = c.entries } in
      let items : List String = dedup [] ids in
      let books =
        total-sweep index delete_step compact_order IsValid (λ s. length s.values)
          (λ t. t.result.deleted) delete_step-IsValid compact_order-keeps items 0 c.shards start
          h.valid in
      let counts =
        tally-sweep index delete_step compact_order (Counts c.entries)
          (delete_step-Counts c.entries) items 0 c.shards start (omega arith) in
      let sizes = length-sweep index delete_step compact_order items 0 c.shards start in
      (
        record {
          full = omega (arith, sizes, h.full);
          valid =
              All-sweep index delete_step compact_order IsValid
                (λ q s r v. (delete_step-IsValid q s r v).0) compact_order-IsValid items 0 c.shards
                start h.valid;
          compact = compacted String DeleteTally index delete_step items 0 c.shards start h.compact;
          counted = omega (arith, books, counts, h.counted);
        },
        omega (arith, books),
        omega (
          arith,
          count-sweep index delete_step compact_order (λ t. delete_total t.result) delete_step-total
              items c.shards start (λ q. in_range q),
        ),
      )
