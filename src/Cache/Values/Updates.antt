-- ===== src/Cache/Values/Updates.antt =====
-- Misses and acknowledgements, which change states in place, and the books of the cache.
use zabbix_exporter.Prelude.{
  ℕ, ◌+◌, ◌<◌, ◌≡◌, refl, String, List, [], ◌∷◌, some, length, All, lookup, arith, Option-cases,
  inl, inr, length-put_old,
}
use zabbix_exporter.Time.{Time}
use zabbix_exporter.Cache.State.{ValueState}
use zabbix_exporter.Cache.Shard.{ValueShard}
use zabbix_exporter.Cache.Shard.Valid.{IsValid, IsCompact, replace-IsValid}
use zabbix_exporter.Cache.Sweep.Laws.{All-sweep, total-sweep, count-sweep, length-sweep}
use zabbix_exporter.Cache.Values.{
  ValueCache, MissResult, AckResult, PublishAck, missed, miss_step, acked, ack_step, dedup,
  keep_shard, shard_index, mark_miss, ack_published,
}
use zabbix_exporter.Cache.Values.Accounts.{IsConsistent, live_values}

-- A shard as both operations keep it.
abbrev Kept : ValueShard → Type 0
Kept s = IsValid s × IsCompact s

acked-keys :
    (ack : PublishAck) (v w : ValueState)
    → acked ack v ≡ some w
    → (w.scan_sequence ≡ v.scan_sequence) × (w.item_id ≡ v.item_id)
unfolding acked
acked-keys ack v w e = ground arith

miss_step-Kept :
    (n : ℕ) (at : Time) (q : String) (s : ValueShard) (r : MissResult)
    → Kept s
    → Kept (miss_step n at q s r).0
      × (length (miss_step n at q s r).0.values + 0 ≡ length s.values + 0)
unfolding miss_step missed
miss_step-Kept n at q s r h = elim (Option-cases (lookup q s.values)) [
  | inl e ↦ ground arith
  | inr (v, e) ↦
      let w : ValueState = (missed n at v).0 in
      rw (e, miss_step)
        (
          (replace-IsValid s q v w e refl refl h.0, h.1),
          omega (arith, length-put_old q w v s.values e),
        )
]

ack_step-Kept :
    (q : PublishAck) (s : ValueShard) (r : AckResult)
    → Kept s
    → Kept (ack_step q s r).0 × (length (ack_step q s r).0.values + 0 ≡ length s.values + 0)
unfolding ack_step
ack_step-Kept q s r h = elim (Option-cases (lookup q.item_id s.values)) [
  | inl e ↦ ground arith
  | inr (v, e) ↦ elim (Option-cases (acked q v)) [
    | inl f ↦ ground arith
    | inr (w, f) ↦
        let same = acked-keys q v w f in
        rw (e, ack_step)
          (rw (f, ack_step)
            (
              (replace-IsValid s q.item_id v w e same.0 same.1 h.0, h.1),
              omega (arith, length-put_old q.item_id w v s.values e),
            ))
  ]
]

All-both : (ss : List ValueShard) → All IsValid ss → All IsCompact ss → All Kept ss
All-both [] v c = tt
All-both (s ∷ ss) v c = ((v.0, c.0), All-both ss v.1 c.1)

All-first : (ss : List ValueShard) → All Kept ss → All IsValid ss × All IsCompact ss
All-first [] h = (tt, tt)
All-first (s ∷ ss) h = let rest = All-first ss h.1 in ((h.0.0, rest.0), (h.0.1, rest.1))

miss_step-total :
    (n : ℕ) (at : Time) (q : String) (s : ValueShard) (r : MissResult)
    → (miss_step n at q s r).1.marked + (miss_step n at q s r).1.not_found
      ≡ r.marked + r.not_found + 1
unfolding miss_step
miss_step-total n at q s r = ground arith

ack_step-total :
    (q : PublishAck) (s : ValueShard) (r : AckResult)
    → (ack_step q s r).1.applied + (ack_step q s r).1.stale + (ack_step q s r).1.not_found
      ≡ r.applied + r.stale + r.not_found + 1
unfolding ack_step
ack_step-total q s r = elim (Option-cases (lookup q.item_id s.values)) [
  | inl e ↦ ground arith
  | inr (v, e) ↦ ground arith
]

module _ (sum64 : String → ℕ) (c : ValueCache) (h : IsConsistent c) where
  in_range : (id : String) → shard_index sum64 c id < length c.shards
  unfolding shard_index
  in_range id = omega (arith, h.full)

  -- Counting misses keeps the shards valid and the entry counter right, stores as many values as
  -- before, and reports every distinct item of the call once, as marked or as not found.
  pub mark_miss-IsConsistent :
      (ids : List String) (at : Time)
      → let (c', r) = mark_miss sum64 c ids at in
        IsConsistent c'
        × (live_values c' ≡ live_values c)
        × (r.marked + r.not_found ≡ length (dedup [] ids))
  unfolding mark_miss
  mark_miss-IsConsistent ids at =
      let step = miss_step c.miss_threshold at in
      let start : MissResult = record { marked = 0; invalidated = 0; not_found = 0 } in
      let items : List String = dedup [] ids in
      let kept = All-both c.shards h.valid h.compact in
      let steps = miss_step-Kept c.miss_threshold at in
      let after = All-first _ (
        All-sweep (shard_index sum64 c) step keep_shard Kept (λ q s r k. (steps q s r k).0)
          (λ s k. k) items 0 c.shards start kept) in
      let books =
        total-sweep (shard_index sum64 c) step keep_shard Kept (λ s. length s.values) (λ r. 0) steps
          (λ s k. (k, refl)) items 0 c.shards start kept in
      let sizes = length-sweep (shard_index sum64 c) step keep_shard items 0 c.shards start in
      (
        record {
          full = omega (arith, sizes, h.full);
          valid = after.0;
          compact = after.1;
          counted = omega (arith, books, h.counted);
        },
        omega (arith, books),
        omega (
          arith,
          count-sweep (shard_index sum64 c) step keep_shard (λ r. r.marked + r.not_found)
              (miss_step-total c.miss_threshold at) items c.shards start in_range,
        ),
      )

  -- The same for acknowledgements: every one is reported once, as applied, stale or not found.
  pub ack_published-IsConsistent :
      (acks : List PublishAck)
      → let (c', r) = ack_published sum64 c acks in
        IsConsistent c'
        × (live_values c' ≡ live_values c)
        × (r.applied + r.stale + r.not_found ≡ length acks)
  unfolding ack_published
  ack_published-IsConsistent acks =
      let index : PublishAck → ℕ = λ q. shard_index sum64 c q.item_id in
      let start : AckResult = record { applied = 0; stale = 0; not_found = 0 } in
      let kept = All-both c.shards h.valid h.compact in
      let after = All-first _ (
        All-sweep index ack_step keep_shard Kept (λ q s r k. (ack_step-Kept q s r k).0) (λ s k. k)
          acks 0 c.shards start kept) in
      let books =
        total-sweep index ack_step keep_shard Kept (λ s. length s.values) (λ r. 0) ack_step-Kept
          (λ s k. (k, refl)) acks 0 c.shards start kept in
      let sizes = length-sweep index ack_step keep_shard acks 0 c.shards start in
      (
        record {
          full = omega (arith, sizes, h.full);
          valid = after.0;
          compact = after.1;
          counted = omega (arith, books, h.counted);
        },
        omega (arith, books),
        omega (
          arith,
          count-sweep index ack_step keep_shard (λ r. r.applied + r.stale + r.not_found)
              ack_step-total acks c.shards start (λ q. in_range q.item_id),
        ),
      )
