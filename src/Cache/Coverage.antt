-- ===== src/Cache/Coverage.antt =====
-- The value cache together with its expiry wheel.
use zabbix_exporter.Prelude.{
  ℕ, ◌<◌, ◌≡◌, refl, sym, ap, subst, ◌∙◌, inl, inr, String, false, List, [], ◌∷◌, Option, none,
  some, ite, text_dec, length, lookup, arith, List-cases,
}
use zabbix_exporter.Time.{Time}
use zabbix_exporter.Cache.State.{ValueState}
use zabbix_exporter.Cache.Sweep.Laws.{replay, length-sweep}
use zabbix_exporter.Cache.Shard.{compact_order}
use zabbix_exporter.Cache.Values.{
  ValueCache, VersionedItem, DeleteReason, DeleteResult, no_deletes, load, shard_index,
  delete_versioned, delete_versioned_step,
}
use zabbix_exporter.Cache.Values.Effects.{delete_versioned_effect}
use zabbix_exporter.Cache.Values.Refines.{load-delete_versioned}
use zabbix_exporter.Cache.Wheel.{ExpiryWheel, Round, expire_due}
use zabbix_exporter.Cache.Wheel.Invariant.{IsSynced}
use zabbix_exporter.Cache.Wheel.Batch.{names}
use zabbix_exporter.Cache.Wheel.Rounds.{IsCovered}
use zabbix_exporter.Cache.Wheel.Expiry.{expire_due_total}

-- What is stored after a list of deletions was stored before, in a generation that none of them
-- names.
replay_survives :
    (items : List VersionedItem) (id : String) (o : Option ValueState) (st : ValueState)
    → replay (λ q. q.item_id) delete_versioned_effect id items o ≡ some st
    → (o ≡ some st) × (names id st.value_version items ≡ false)
unfolding replay names
replay_survives [] id o st e = (e, refl)
replay_survives (q ∷ qs) id none st e = ground (
  arith,
  replay_survives qs id (ite (text_dec q.item_id id) (delete_versioned_effect q none) none) st e,
)
replay_survives (q ∷ qs) id (some s) st e = ground (
  arith,
  replay_survives qs id (ite (text_dec q.item_id id) (delete_versioned_effect q (some s)) (some s))
      st e,
)

some_inj : {A : Type 0} (a b : A) → some a ≡ some b → a ≡ b
some_inj a b e = cc

module _ (sum64 : String → ℕ) where
  -- The DeleteVersioned that the round calls.
  abbrev pub expire_items : ValueCache → List VersionedItem → ValueCache × DeleteResult
  expire_items c items = delete_versioned sum64 c items DeleteReason.expired

  -- The cache stores the generation `v` of the item, which expires at `x`.
  abbrev pub Stores : ValueCache → String → ℕ → Time → Type 0
  Stores c id v x =
      (0 < length c.shards)
      × ((st : ValueState) × (load sum64 c id ≡ some st)
          × (st.value_version ≡ v)
          × (st.expire_at ≡ x))

  same_shards :
      (c : ValueCache) (items : List VersionedItem)
      → length (expire_items c items).0.shards ≡ length c.shards
  unfolding delete_versioned
  same_shards c items =
      length-sweep (λ q. shard_index sum64 c q.item_id) delete_versioned_step compact_order items 0
        c.shards (record { result = no_deletes DeleteReason.expired; entries = c.entries })

  pub Stores-survives :
      (c : ValueCache) (items : List VersionedItem) (id : String) (v : ℕ) (x : Time)
      → Stores (expire_items c items).0 id v x
      → Stores c id v x × (names id v items ≡ false)
  Stores-survives c items id v x (full', (st, e, ev, ex)) =
      let full : 0 < length c.shards = omega (arith, same_shards c items) in
      let before =
        replay_survives items id (load sum64 c id) st
          (sym (load-delete_versioned sum64 c full items DeleteReason.expired id) ∙ e) in
      ((full, (st, before.0, ev, ex)), subst (λ n. names id n items ≡ false) ev before.1)

  -- Every value of the cache is registered with the wheel, under its version and expiry time.
  abbrev pub IsRegistered : ValueCache → ExpiryWheel → Type 0
  IsRegistered = IsCovered expire_items Stores Stores-survives

  -- A call of ExpireDue returns: its loop ends within the budget. The wheel's keys and buckets
  -- still agree, and the values that remain are still registered.
  pub expire_due-returns :
      (w : ExpiryWheel) (now : Time) (c : ValueCache)
      → IsSynced w.keys w.buckets
      → IsRegistered c w
      → (r : Round ValueCache) × (expire_due expire_items w now c ≡ some r)
        × IsSynced r.wheel.keys r.wheel.buckets
        × IsRegistered r.store r.wheel
  expire_due-returns w now c synced covered =
      let (r, e, s', c', clean) =
        expire_due_total expire_items Stores Stores-survives w now c synced covered in
      (r, e, s', c')

  pub full_of_load :
      (c : ValueCache) (id : String) (st : ValueState)
      → load sum64 c id ≡ some st
      → 0 < length c.shards
  unfolding load lookup
  full_of_load c id st e = elim (List-cases c.shards) [
    | inl n ↦ let e' = rw n at e in cc
    | inr (s, ss, n) ↦ rw n (omega arith)
  ]

  -- A call of ExpireDue at `now`, on a cache whose values are all registered with the wheel, whose
  -- result does not say that it was limited, leaves no value that expires at or before `now`.
  pub expire_due-load :
      (w : ExpiryWheel) (now : Time) (c : ValueCache) (r : Round ValueCache)
      → IsSynced w.keys w.buckets
      → IsRegistered c w
      → expire_due expire_items w now c ≡ some r
      → r.result.limited ≡ false
      → (id : String) (st : ValueState) → load sum64 r.store id ≡ some st
      → now < st.expire_at
  expire_due-load w now c r synced covered returned free id st l =
      let (q, e, s', c', clean) =
        expire_due_total expire_items Stores Stores-survives w now c synced covered in
      let same : q ≡ r = some_inj q r (sym e ∙ returned) in
      let unlimited : q.result.limited ≡ false =
        ap (λ (t : Round ValueCache). t.result.limited) same ∙ free in
      let stored : load sum64 q.store id ≡ some st =
        ap (λ (t : Round ValueCache). load sum64 t.store id) same ∙ l in
      clean unlimited id st.value_version st.expire_at
        (full_of_load q.store id st stored, (st, stored, refl, refl))
