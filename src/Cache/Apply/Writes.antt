-- ===== src/Cache/Apply/Writes.antt =====
-- internal/cache/value_cache.go and expiry_wheel.go: the generations that ApplyBatch writes, and the
-- wheel.
use zabbix_exporter.Prelude.{
  ℕ, ◌<◌, ◌≡◌, refl, sym, ap, ◌∙◌, inl, inr, String, Bool, true, false, ◌||◌, List, [], ◌∷◌, ◌++◌,
  Option, none, some, ◌==◌, All, length, get_or, lookup, arith, Option-cases, Bool-cases, ==_iff,
}
use zabbix_exporter.Time.{Time}
use zabbix_exporter.Zabbix.History.{BatchResult}
use zabbix_exporter.Metadata.Types.{MetadataSnapshot}
use zabbix_exporter.Cache.State.{ValueState}
use zabbix_exporter.Cache.Shard.{ValueShard, empty_shard}
use zabbix_exporter.Cache.Sweep.{sweep}
use zabbix_exporter.Cache.Sweep.At.{at-sweep}
use zabbix_exporter.Cache.Sweep.Laws.{length-sweep}
use zabbix_exporter.Cache.Values.{ValueCache, shard_index, publish_slot_of, load, keep_shard}
use zabbix_exporter.Cache.Buckets.{
  ExpiryEntry, Buckets, set_bucket, bucket_key, bucket_at, entries_at,
}
use zabbix_exporter.Cache.Buckets.Laws.{has_entry, has_entry-append, entries_at-set}
use zabbix_exporter.Cache.Wheel.{ExpiryWheel, register_entry, register_expiry}
use zabbix_exporter.Cache.Coverage.{IsRegistered}
use zabbix_exporter.Cache.Apply.{
  PendingValue, MetadataReads, WriteTally, write_step, Marks, Sorted, marks_of, sort_latest,
  start_tally, apply_points, write_pending, apply_batch, is_usable,
}
use zabbix_exporter.Cache.Apply.Steps.{
  IsAccounted, past_write_step-IsAccounted, write_step-IsAccounted,
}

All-unit : (xs : List PendingValue) → All {0, 0} (λ x. Unit) xs
All-unit [] = tt
All-unit (x ∷ xs) = (tt, All-unit xs)

elsewhere :
    (id : String) (v : ℕ) (x : Time) (e : ExpiryEntry)
    → (bucket_key e.expire_at == bucket_key x) ≡ false
    → has_entry id v x (e ∷ []) ≡ false
unfolding has_entry
elsewhere id v x e f = elim (Bool-cases (e.expire_at == x)) [
  | inl t ↦
      let same : bucket_key e.expire_at ≡ bucket_key x =
        ap bucket_key ((==_iff e.expire_at x).0 t) in
      absurd (ground arith)
  | inr t ↦ ground arith
]

-- A registration keeps what the buckets hold, and adds its entry to the bucket of its minute.
at_append :
    (id : String) (v : ℕ) (x : Time) (b : Buckets) (e : ExpiryEntry)
    → has_entry id v x (
        entries_at
          (bucket_key x)
          (set_bucket (bucket_key e.expire_at) (entries_at (bucket_key e.expire_at) b ++ e ∷ []) b))
      ≡ (has_entry id v x (entries_at (bucket_key x) b) || has_entry id v x (e ∷ []))
at_append id v x b e =
    let k : ℕ = bucket_key e.expire_at in
    let es : List ExpiryEntry = entries_at k b in
    elim (Bool-cases (k == bucket_key x)) [
      | inl t ↦
          let same : k ≡ bucket_key x = (==_iff k (bucket_key x)).0 t in
          rw (entries_at-set (bucket_key x) k (es ++ e ∷ []) b) (
            rw t (
              rw (has_entry-append id v x es (e ∷ []))
                (ap (λ j. has_entry id v x (entries_at j b) || has_entry id v x (e ∷ [])) same)))
      | inr f ↦
          rw (entries_at-set (bucket_key x) k (es ++ e ∷ []) b)
            (rw f (ground (arith, elsewhere id v x e f)))
    ]

entry_of_register_entry :
    (id : String) (v : ℕ) (x : Time) (w : ExpiryWheel) (e : ExpiryEntry)
    → has_entry id v x (entries_at (bucket_key x) (register_entry w e).buckets)
      ≡ (has_entry id v x (entries_at (bucket_key x) w.buckets) || has_entry id v x (e ∷ []))
unfolding register_entry
entry_of_register_entry id v x w e =
    let at = at_append id v x w.buckets e in
    elim (Option-cases (bucket_at (bucket_key e.expire_at) w.buckets)) [
      | inl n ↦ rw (n, register_entry) (rw n at at)
      | inr (es, n) ↦ rw (n, register_entry) (rw n at at)
    ]

entry_of_register_expiry :
    (id : String) (v : ℕ) (x : Time) (w : ExpiryWheel) (es : List ExpiryEntry)
    → has_entry id v x (entries_at (bucket_key x) (register_expiry w es).buckets)
      ≡ (has_entry id v x (entries_at (bucket_key x) w.buckets) || has_entry id v x es)
unfolding register_expiry has_entry
entry_of_register_expiry id v x w [] = ground arith
entry_of_register_expiry id v x w (e ∷ es) = ground (
  arith,
  entry_of_register_expiry id v x (register_entry w e) es,
  entry_of_register_entry id v x w e,
)

registered_right :
    (id : String) (v : ℕ) (x : Time) (v' : ℕ) (x' : Time) (b : Bool) (es : List ExpiryEntry)
    → v' ≡ v
    → x' ≡ x
    → has_entry id v' x' es ≡ true
    → (b || has_entry id v x es) ≡ true
registered_right id v x v' x' b es ev ex h = ground arith

-- A value after the writes was there before, or is registered by them.
sweep-IsAccounted :
    (registrar : Bool) (reads : Option MetadataReads) (slot : String → ℕ) (index : PendingValue → ℕ)
    (old : Option ValueState) (id : String) (pending : List PendingValue) (i : ℕ)
    (shards : List ValueShard) (t : WriteTally)
    → registrar ≡ true
    → i < length shards
    → old ≡ lookup id (get_or shards i empty_shard).values
    → IsAccounted old id
        (get_or
          (sweep index (write_step registrar reads slot) keep_shard pending 0 shards t).0
          i
          empty_shard)
        (sweep index (write_step registrar reads slot) keep_shard pending 0 shards t).1
sweep-IsAccounted registrar reads slot index old id pending i shards t on lt start = rw on (
    at-sweep index (write_step true reads slot) keep_shard (λ p. Unit) (IsAccounted old id)
      (λ p s r g h. write_step-IsAccounted old id reads slot p s r h) (λ s r h. h)
      (λ p s s' r h. past_write_step-IsAccounted old id reads slot p s s' r h) pending 0 i shards t
      (All-unit pending) lt (λ v e. inl (v, start ∙ e, refl, refl)))

module _ (sum64 : String → ℕ) (c : ValueCache) (reads : Option MetadataReads)
    (pending : List PendingValue) (t : WriteTally) where
  pub length-write_pending : length (write_pending sum64 c reads pending t).0 ≡ length c.shards
  unfolding write_pending
  length-write_pending =
      length-sweep (λ p. shard_index sum64 c p.item_id)
        (write_step c.has_registrar reads (publish_slot_of sum64 c)) keep_shard pending 0 c.shards t

  pub load-write_pending :
      (n m : ℕ) (id : String)
      → load sum64
          (record c {
            shards = (write_pending sum64 c reads pending t).0;
            next_value_version = n;
            entries = m;
          })
          id
        ≡ lookup id
            (get_or
              (write_pending sum64 c reads pending t).0
              (shard_index sum64 c id)
              empty_shard).values
  unfolding load shard_index
  load-write_pending n m id = rw length-write_pending refl

  write_pending-IsAccounted :
      c.has_registrar ≡ true
      → 0 < length c.shards
      → (id : String)
      → IsAccounted
          (load sum64 c id)
          id
          (get_or (write_pending sum64 c reads pending t).0 (shard_index sum64 c id) empty_shard)
          (write_pending sum64 c reads pending t).1
  unfolding write_pending shard_index load
  write_pending-IsAccounted on full id =
      sweep-IsAccounted c.has_registrar reads (publish_slot_of sum64 c)
        (λ p. shard_index sum64 c p.item_id) (load sum64 c id) id pending (shard_index sum64 c id)
        c.shards t on (omega arith) refl

module _ (sum64 : String → ℕ) (parse_float : String → Option ℕ) where
  apply_points-IsRegistered :
      (c : ValueCache) (w : ExpiryWheel) (reads : Option MetadataReads) (batch : BatchResult)
      (snapshot : MetadataSnapshot)
      → c.has_registrar ≡ true
      → IsRegistered sum64 c w
      → let a = apply_points sum64 parse_float c reads batch snapshot in
        IsRegistered sum64 a.cache (register_expiry w a.registered)
  unfolding apply_points
  apply_points-IsRegistered c w reads batch snapshot on covered id v x (full', (st, l, ev, ex)) =
      let marks : Marks = marks_of reads snapshot batch in
      let sorted : Sorted = sort_latest parse_float snapshot batch marks in
      let start : WriteTally = start_tally c marks sorted in
      let t : WriteTally = (write_pending sum64 c reads sorted.pending start).1 in
      let full : 0 < length c.shards =
        omega (arith, length-write_pending sum64 c reads sorted.pending start) in
      let stored =
        sym (load-write_pending sum64 c reads sorted.pending start t.next_version t.entries id)
        ∙ l in
      rw (entry_of_register_expiry id v x w t.expiry)
        (elim (write_pending-IsAccounted sum64 c reads sorted.pending start on full id st stored) [
          | inl (o, e, fv, fx) ↦ rw (covered id v x (full, (o, e, fv ∙ ev, fx ∙ ex))) refl
          | inr new ↦ registered_right id v x st.value_version st.expire_at _ t.expiry ev ex new
        ])

  -- A batch applied to a cache whose values are all registered with the wheel, and its new
  -- generations handed to the wheel: every value of the cache is registered again.
  pub apply_batch-IsRegistered :
      (c : ValueCache) (w : ExpiryWheel) (reads : Option MetadataReads) (batch : BatchResult)
      (snapshot : Option MetadataSnapshot)
      → c.has_registrar ≡ true
      → IsRegistered sum64 c w
      → let a = apply_batch sum64 parse_float c reads batch snapshot in
        IsRegistered sum64 a.cache (register_expiry w a.registered)
  unfolding apply_batch register_expiry apply_points
  apply_batch-IsRegistered c w reads batch none on covered id v x stored = covered id v x stored
  apply_batch-IsRegistered c w reads batch (some snapshot) on covered id v x stored =
      elim (Bool-cases (is_usable batch.status)) [
        | inr f ↦ rw (f, apply_batch) (covered id v x (rw (f, apply_batch) at stored))
        | inl t ↦
            rw (t, apply_batch)
              (apply_points-IsRegistered c w reads batch snapshot on covered id v x
                (rw (t, apply_batch) at stored))
      ]
