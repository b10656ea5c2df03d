-- ===== src/Cache/Apply/Counts.antt =====
-- internal/cache/value_cache.go: the counters of ApplyBatch against the shards.
use zabbix_exporter.Prelude.{
  ℕ, ◌+◌, ◌%◌, ◌<◌, ◌≡◌, refl, inl, inr, String, Bool, true, false, List, [], ◌∷◌, ◌++◌, Option,
  none, some, if◌then◌else◌, length, total, lookup, length-put_old, length-put_new, length-append,
  Map, arith, Option-cases, Bool-cases,
}
use zabbix_exporter.Time.{int64_mod}
use zabbix_exporter.Zabbix.History.{BatchResult, HistoryItem}
use zabbix_exporter.Metadata.Types.{MetadataSnapshot}
use zabbix_exporter.Cache.State.{ValueState}
use zabbix_exporter.Cache.Shard.{ValueShard, insert}
use zabbix_exporter.Cache.Sweep.Laws.{tally-sweep, count-sweep}
use zabbix_exporter.Cache.Sweep.Growth.{growth-sweep}
use zabbix_exporter.Cache.Values.{ValueCache, shard_index, publish_slot_of, keep_shard}
use zabbix_exporter.Cache.Values.Accounts.{live_values}
use zabbix_exporter.Cache.Apply.{
  PendingValue, MetadataReads, WriteTally, Sorted, Marks, marks_of, sort_latest, start_tally, stays,
  install, current_at_write, write_step, write_pending, apply_points, apply_batch, is_usable,
  check_point, fetch_time, Verdict, sort_points, sort_verdict, latest_of, state_of,
}

length-insert :
    (s : ValueShard) (state : ValueState)
    → length (insert s state).values ≡ elim (lookup state.item_id s.values) [
      | none ↦ length s.values + 1
      | some v ↦ length s.values
    ]
unfolding insert
length-insert s state = elim (Option-cases (lookup state.item_id s.values)) [
  | inl e ↦
      rw (e, insert)
        (length-put_new state.item_id
          (record state { scan_sequence = (s.next_sequence + 1) % int64_mod }) s.values e)
  | inr (v, e) ↦
      rw (e, insert)
        (length-put_old state.item_id (record state { scan_sequence = v.scan_sequence }) v s.values
          e)
]

module _ (registrar : Bool) (reads : Option MetadataReads) (slot : String → ℕ) (p : PendingValue)
    (s : ValueShard) (t : WriteTally) where
  length-install :
      (b : Bool) (slot' : ℕ)
      → length (install registrar slot' p b s t).0.values
        ≡ elim (lookup p.item_id s.values) [ none ↦ length s.values + 1 | some v ↦ length s.values ]
  unfolding install
  length-install b slot' = length-insert s (state_of p ((t.next_version + 1) % int64_mod) slot')

  install-created :
      (b : Bool) (slot' : ℕ)
      → (install registrar slot' p b s t).1.created ≡ (if b then t.created else t.created + 1)
  unfolding install
  install-created b slot' = refl

  -- A step writes as many new values as it counts.
  write_step-created :
      length (write_step registrar reads slot p s t).0.values + t.created
      ≡ length s.values + (write_step registrar reads slot p s t).1.created
  unfolding write_step
  write_step-created = elim (Bool-cases (current_at_write reads p.item_id p.metadata_version)) [
    | inr f ↦ rw (f, write_step) refl
    | inl f ↦ elim (Option-cases (lookup p.item_id s.values)) [
      | inl e ↦
          rw (f, write_step)
            (rw (e, write_step)
              (omega (
                arith,
                rw e at (length-install false (slot p.item_id)),
                install-created false (slot p.item_id),
              )))
      | inr (v, e) ↦ elim (Bool-cases (stays p v)) [
        | inl k ↦
            rw (f, write_step)
              (rw (e, write_step)
                (rw (k, write_step)
                  (omega (
                    arith,
                    length-put_old p.item_id (record v { last_fetch_at = p.fetched_at }) v s.values
                        e,
                  ))))
        | inr k ↦
            rw (f, write_step)
              (rw (e, write_step)
                (rw (k, write_step)
                  (omega (
                    arith,
                    rw e at (length-install true (slot p.item_id)),
                    install-created true (slot p.item_id),
                  ))))
      ]
    ]
  ]

  write_step-entries :
      (write_step registrar reads slot p s t).1.entries + t.created
      ≡ t.entries + (write_step registrar reads slot p s t).1.created
  unfolding write_step install
  write_step-entries = ground arith

  write_step-total :
      (write_step registrar reads slot p s t).1.created
        + (write_step registrar reads slot p s t).1.updated
        + (write_step registrar reads slot p s t).1.unchanged
        + (write_step registrar reads slot p s t).1.skipped
      ≡ t.created + t.updated + t.unchanged + t.skipped + 1
  unfolding write_step install
  write_step-total = ground arith

length_last : (ps : List PendingValue) (p : PendingValue) → length (ps ++ p ∷ []) ≡ length ps + 1
length_last ps p = omega (arith, length-append ps (p ∷ []))

sort_verdict-total :
    (id : String) (v : Verdict) (t : Sorted)
    → (sort_verdict id v t).skipped
        + (sort_verdict id v t).rejected
        + length (sort_verdict id v t).pending
      ≡ t.skipped + t.rejected + length t.pending + 1
unfolding sort_verdict
sort_verdict-total id Verdict.skip t = omega arith
sort_verdict-total id Verdict.reject t = omega arith
sort_verdict-total id (Verdict.accept p) t = omega (arith, length_last t.pending p)

sort_points-total :
    (check : String → HistoryItem → Verdict) (latest : Map HistoryItem) (t : Sorted)
    → (sort_points check latest t).skipped
        + (sort_points check latest t).rejected
        + length (sort_points check latest t).pending
      ≡ t.skipped + t.rejected + length t.pending + length latest
unfolding sort_points
sort_points-total check [] t = omega arith
sort_points-total check ((id, point) ∷ latest) t = omega (
  arith,
  sort_points-total check latest (sort_verdict id (check id point) t),
  sort_verdict-total id (check id point) t,
)

module _ (sum64 : String → ℕ) (c : ValueCache) (reads : Option MetadataReads)
    (pending : List PendingValue) (t : WriteTally) where
  write_pending-created :
      total (λ s. length s.values) (write_pending sum64 c reads pending t).0 + t.created
      ≡ live_values c + (write_pending sum64 c reads pending t).1.created
  unfolding write_pending
  write_pending-created =
      growth-sweep (λ p. shard_index sum64 c p.item_id)
        (write_step c.has_registrar reads (publish_slot_of sum64 c)) keep_shard
        (λ s. length s.values) (λ r. r.created)
        (write_step-created c.has_registrar reads (publish_slot_of sum64 c)) (λ s. refl) pending 0
        c.shards t

  write_pending-entries :
      (n : ℕ)
      → t.entries ≡ n + t.created
      → (write_pending sum64 c reads pending t).1.entries
        ≡ n + (write_pending sum64 c reads pending t).1.created
  unfolding write_pending
  write_pending-entries n h =
      tally-sweep (λ p. shard_index sum64 c p.item_id)
        (write_step c.has_registrar reads (publish_slot_of sum64 c)) keep_shard
        (λ r. r.entries ≡ n + r.created)
        (λ p s r e.
          omega (arith, write_step-entries c.has_registrar reads (publish_slot_of sum64 c) p s r))
        pending 0 c.shards t h

  write_pending-total :
      0 < length c.shards
      → let r = (write_pending sum64 c reads pending t).1 in
        r.created + r.updated + r.unchanged + r.skipped
        ≡ t.created + t.updated + t.unchanged + t.skipped + length pending
  unfolding write_pending shard_index
  write_pending-total full =
      count-sweep (λ p. shard_index sum64 c p.item_id)
        (write_step c.has_registrar reads (publish_slot_of sum64 c)) keep_shard
        (λ r. r.created + r.updated + r.unchanged + r.skipped)
        (write_step-total c.has_registrar reads (publish_slot_of sum64 c)) pending c.shards t
        (λ p. omega arith)

module _ (sum64 : String → ℕ) (parse_float : String → Option ℕ) (c : ValueCache)
    (full : 0 < length c.shards) where
  -- A complete batch, with a snapshot: the values stored and the entry counter both grow by the
  -- values that it reports as created, and every latest point is reported once, as created,
  -- updated, unchanged, rejected or skipped.
  pub apply_batch-counts :
      (reads : Option MetadataReads) (batch : BatchResult) (snapshot : MetadataSnapshot)
      → is_usable batch.status ≡ true
      → let a = apply_batch sum64 parse_float c reads batch (some snapshot) in
        let r = a.result in
        (live_values a.cache ≡ live_values c + r.created)
        × (a.cache.entries ≡ c.entries + r.created)
        × (r.created + r.updated + r.unchanged + r.rejected + r.skipped ≡ length (latest_of batch))
  unfolding apply_batch apply_points sort_latest
  apply_batch-counts reads batch snapshot t =
      let marks : Marks = marks_of reads snapshot batch in
      let sorted : Sorted = sort_latest parse_float snapshot batch marks in
      let start : WriteTally = start_tally c marks sorted in
      let points =
        sort_points-total (check_point parse_float snapshot (fetch_time batch)) (latest_of batch)
          (record {
            skipped = 0;
            rejected = 0;
            errors = [];
            protected = marks.protected;
            pending = [];
          }) in
      rw (t, apply_batch)
        (
          omega (arith, write_pending-created sum64 c reads sorted.pending start),
          write_pending-entries sum64 c reads sorted.pending start c.entries (omega arith),
          omega (arith, points, write_pending-total sum64 c reads sorted.pending start full),
        )
