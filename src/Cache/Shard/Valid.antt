-- ===== src/Cache/Shard/Valid.antt =====
-- The invariant of a shard, under its operations.
use zabbix_exporter.Prelude.{
  ℕ, ◌+◌, ◌*◌, ◌%◌, ◌≤◌, ◌<◌, ◌≡◌, refl, ap, ◌∙◌, ◌⊎◌, inl, inr, String, [], ◌∷◌, ◌++◌, none, some,
  length, keep, lookup, put, arith, length-append, length-put_new, length-put_old, length-erase,
  Option-cases,
}
use zabbix_exporter.Time.{int64_mod}
use zabbix_exporter.Cache.State.{ValueState}
use zabbix_exporter.Cache.Shard.{
  ScanKey, ValueShard, empty_shard, insert, insert_old, insert_new, delete, is_live, compact_order,
}
use zabbix_exporter.Cache.Shard.Order.{
  Ascending, Below, Scanned, count_key, Ascending-snoc, Below-mono, Below-snoc, keep-Ascending,
  keep-Below, count_key-above, count_key-append, put-Scanned, erase-Scanned, snoc-Scanned,
  length-live, live-Scanned, Scanned-Distinct, Scanned-lookup,
}

pub record IsValid (s : ValueShard) : Type 0 where
  pub ascending : Ascending 0 s.order
  pub below : Below s.next_sequence s.order
  pub scanned : Scanned s.order s.values
  pub counted : length s.order ≡ length s.values + s.tombstones

-- What compaction leaves: few deleted keys, or fewer deleted than live ones.
abbrev pub IsCompact : ValueShard → Type 0
IsCompact s = (s.tombstones < 1024) ⊎ (s.tombstones * 2 < length s.order)

pub empty-IsValid : IsValid empty_shard
empty-IsValid = record { ascending = tt; below = tt; scanned = tt; counted = refl }

insert_old-IsValid :
    (s : ValueShard) (v w : ValueState)
    → lookup v.item_id s.values ≡ some w
    → IsValid s
    → IsValid (insert_old s v w)
unfolding insert_old
insert_old-IsValid s v w e h =
    let at = Scanned-lookup s.order s.values v.item_id w h.scanned e in
    record {
      ascending = h.ascending;
      below = h.below;
      scanned =
          put-Scanned s.order v.item_id (record v { scan_sequence = w.scan_sequence }) s.values at.0
            refl h.scanned;
      counted = omega (
        arith,
        h.counted,
        length-put_old v.item_id (record v { scan_sequence = w.scan_sequence }) w s.values e,
      );
    }

count_new :
    (s : ValueShard) (n : ℕ) (id : String)
    → Below s.next_sequence s.order
    → s.next_sequence < n
    → count_key n id (s.order ++ record { sequence = n; item_id = id } ∷ []) ≡ 1
unfolding count_key
count_new s n id b h = ground (
  arith,
  count_key-append n id s.order (record { sequence = n; item_id = id } ∷ []),
  count_key-above n id s.next_sequence s.order b h,
)

insert_new-IsValid :
    (s : ValueShard) (v : ValueState)
    → lookup v.item_id s.values ≡ none
    → s.next_sequence + 1 < int64_mod
    → IsValid s
    → IsValid (insert_new s v)
unfolding insert_new
insert_new-IsValid s v e room h =
    let n : ℕ = s.next_sequence + 1 in
    let k : ScanKey = record { sequence = n; item_id = v.item_id } in
    let w : ValueState = record v { scan_sequence = n } in
    let fresh : (s.next_sequence + 1) % int64_mod ≡ n = omega arith in
    rw fresh (record {
      ascending =
          Ascending-snoc 0 s.order s.next_sequence k h.ascending h.below (omega arith)
            (omega arith);
      below =
          Below-snoc s.order n k (Below-mono s.order s.next_sequence n (omega arith) h.below)
            (omega arith);
      scanned =
          put-Scanned (s.order ++ k ∷ []) v.item_id w s.values
            (count_new s n v.item_id h.below (omega arith)) refl
            (snoc-Scanned s.order k s.values e h.scanned);
      counted =
          omega (
            arith,
            h.counted,
            length-append s.order (k ∷ []),
            length-put_new v.item_id w s.values e,
          );
    })

-- An insertion into a valid shard whose next sequence number does not wrap leaves it valid.
pub insert-IsValid :
    (s : ValueShard) (v : ValueState)
    → s.next_sequence + 1 < int64_mod
    → IsValid s
    → IsValid (insert s v)
unfolding insert
insert-IsValid s v room h = elim (Option-cases (lookup v.item_id s.values)) [
  | inl e ↦ rw (e, insert) (insert_new-IsValid s v e room h)
  | inr (w, e) ↦ rw (e, insert) (insert_old-IsValid s v w e h)
]

-- A new state under the same key and scan sequence.
pub replace-IsValid :
    (s : ValueShard) (id : String) (v w : ValueState)
    → lookup id s.values ≡ some v
    → w.scan_sequence ≡ v.scan_sequence
    → w.item_id ≡ v.item_id
    → IsValid s
    → IsValid (record s { values = put id w s.values })
replace-IsValid s id v w e q j h =
    let at = Scanned-lookup s.order s.values id v h.scanned e in
    record {
      ascending = h.ascending;
      below = h.below;
      scanned =
          put-Scanned s.order id w s.values (ap (λ n. count_key n id s.order) q ∙ at.0) (j ∙ at.1)
            h.scanned;
      counted = omega (arith, h.counted, length-put_old id w v s.values e);
    }

-- A deletion leaves a valid shard valid.
pub delete-IsValid : (s : ValueShard) (id : String) → IsValid s → IsValid (delete s id).0
unfolding delete
delete-IsValid s id h = elim (Option-cases (lookup id s.values)) [
  | inl e ↦ rw (e, delete) h
  | inr (w, e) ↦
      rw (e, delete)
        (record {
          ascending = h.ascending;
          below = h.below;
          scanned = erase-Scanned s.order id s.values h.scanned;
          counted = omega (
            arith,
            h.counted,
            length-erase id w s.values (Scanned-Distinct s.order s.values h.scanned) e,
          );
        })
]

compacted-IsValid :
    (s : ValueShard)
    → IsValid s
    → IsValid (record s { order = keep (is_live s.values) s.order; tombstones = 0 })
compacted-IsValid s h = record {
  ascending = keep-Ascending (is_live s.values) 0 s.order h.ascending;
  below = keep-Below (is_live s.values) s.next_sequence s.order h.below;
  scanned = live-Scanned s.order s.values h.scanned;
  counted = omega (arith, length-live s.order s.values h.scanned);
}

-- The compaction of its scan order leaves a valid shard valid.
pub compact_order-IsValid : (s : ValueShard) → IsValid s → IsValid (compact_order s)
unfolding compact_order
compact_order-IsValid s h = ground (arith, compacted-IsValid s h)

pub compact_order-IsCompact : (s : ValueShard) → IsCompact (compact_order s)
unfolding compact_order
compact_order-IsCompact s = ground arith

pub insert-IsCompact : (s : ValueShard) (v : ValueState) → IsCompact s → IsCompact (insert s v)
unfolding insert insert_old insert_new
insert-IsCompact s v h = elim (Option-cases (lookup v.item_id s.values)) [
  | inl e ↦
      rw (e, insert)
        (ground (
          arith,
          length-append s.order
              (record { sequence = (s.next_sequence + 1) % int64_mod; item_id = v.item_id } ∷ []),
        ))
  | inr (w, e) ↦ rw (e, insert) h
]

-- The scan order of a valid shard that is compact has at most twice as many keys as the shard has
-- values, and 1023 more.
pub length-order-le :
    (s : ValueShard) → IsValid s → IsCompact s → length s.order ≤ 2 * length s.values + 1023
length-order-le s h c = ground (arith, h.counted)

pub length-delete :
    (s : ValueShard) (id : String) (v : ValueState)
    → lookup id s.values ≡ some v
    → IsValid s
    → length (delete s id).0.values + 1 ≡ length s.values
unfolding delete
length-delete s id v e h =
    rw (e, delete) (length-erase id v s.values (Scanned-Distinct s.order s.values h.scanned) e)
