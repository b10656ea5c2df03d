-- ===== src/Cache/Apply/Steps.antt =====
-- internal/cache/value_cache.go: what ApplyBatch does with one pending value, and with one point.
use zabbix_exporter.Prelude.{
  ℕ, ◌+◌, ◌%◌, ◌≡◌, refl, ◌⊎◌, inl, inr, String, Bool, true, false, List, [], ◌∷◌, ◌++◌, Option,
  some, ite, text_dec, lookup, put, lookup-put, arith, Option-cases, Bool-cases,
}
use zabbix_exporter.Time.{Time, int64_mod}
use zabbix_exporter.Cache.State.{ValueState, value_expire_at}
use zabbix_exporter.Cache.Shard.{ValueShard, insert}
use zabbix_exporter.Cache.Buckets.{ExpiryEntry}
use zabbix_exporter.Cache.Buckets.Laws.{has_entry, has_entry-append}
use zabbix_exporter.Cache.Apply.{
  PendingValue, MetadataReads, WriteTally, current_at_write, state_of, source_of, stays, install,
  write_step,
}

pub lookup-insert :
    (s : ValueShard) (state : ValueState) (j : String)
    → (n : ℕ) × (lookup j (insert s state).values
        ≡ ite
            (text_dec state.item_id j)
            (some (record state { scan_sequence = n }))
            (lookup j s.values))
unfolding insert
lookup-insert s state j = elim (Option-cases (lookup state.item_id s.values)) [
  | inl e ↦
      rw (e, insert)
        (
          (s.next_sequence + 1) % int64_mod,
          lookup-put state.item_id j
              (record state { scan_sequence = (s.next_sequence + 1) % int64_mod }) s.values,
        )
  | inr (v, e) ↦
      rw (e, insert)
        (
          v.scan_sequence,
          lookup-put state.item_id j (record state { scan_sequence = v.scan_sequence }) s.values,
        )
]

module _ (registrar : Bool) (reads : Option MetadataReads) (slot : String → ℕ) (p : PendingValue)
    (s : ValueShard) (t : WriteTally) where
  -- A pending value is skipped, or refreshes the state that stays, or is installed.
  pub write_step-cases :
      ((write_step registrar reads slot p s t).0 ≡ s)
        × ((write_step registrar reads slot p s t).1.expiry ≡ t.expiry)
      ⊎ (((current : ValueState) × (lookup p.item_id s.values ≡ some current)
            × ((write_step registrar reads slot p s t).0.values
                ≡ put p.item_id (record current { last_fetch_at = p.fetched_at }) s.values)
            × ((write_step registrar reads slot p s t).1.expiry ≡ t.expiry))
          ⊎ ((b : Bool) × ((current : ValueState)
                → lookup p.item_id s.values ≡ some current
                → stays p current ≡ false)
              × (write_step registrar reads slot p s t
                  ≡ install registrar (slot p.item_id) p b s t)))
  unfolding write_step
  write_step-cases = elim (Bool-cases (current_at_write reads p.item_id p.metadata_version)) [
    | inr stale ↦ inl (rw (stale, write_step) refl, rw (stale, write_step) refl)
    | inl fresh ↦ elim (Option-cases (lookup p.item_id s.values)) [
      | inl e ↦ inr (
          inr (
            false,
            λ current f. absurd (ground arith),
            rw (fresh, write_step) (rw (e, write_step) refl),
          ))
      | inr (v, e) ↦ elim (Bool-cases (stays p v)) [
        | inl k ↦ inr (
            inl (
              v,
              e,
              rw (fresh, write_step) (rw (e, write_step) (rw (k, write_step) refl)),
              rw (fresh, write_step) (rw (e, write_step) (rw (k, write_step) refl)),
            ))
        | inr k ↦ inr (
            inr (
              true,
              λ current f. ground arith,
              rw (fresh, write_step) (rw (e, write_step) (rw (k, write_step) refl)),
            ))
      ]
    ]
  ]

-- A stored generation is accounted for if it was stored before, or stands among the entries that
-- the batch registers.
abbrev pub IsAccounted : Option ValueState → String → ValueShard → WriteTally → Type 0
IsAccounted old id s t =
    (v : ValueState)
    → lookup id s.values ≡ some v
    → ((o : ValueState) × (old ≡ some o)
        × (o.value_version ≡ v.value_version)
        × (o.expire_at ≡ v.expire_at))
      ⊎ (has_entry id v.value_version v.expire_at t.expiry ≡ true)

registered_last :
    (id : String) (e : ExpiryEntry) (es : List ExpiryEntry) (v : ℕ) (x : Time)
    → e.item_id ≡ id
    → e.value_version ≡ v
    → e.expire_at ≡ x
    → has_entry id v x (es ++ e ∷ []) ≡ true
unfolding has_entry
registered_last id e es v x i j k = ground (arith, has_entry-append id v x es (e ∷ []))

install-IsAccounted :
    (old : Option ValueState) (id : String) (slot : ℕ) (p : PendingValue) (b : Bool)
    (s : ValueShard) (t : WriteTally)
    → IsAccounted old id s t
    → IsAccounted old id (install true slot p b s t).0 (install true slot p b s t).1
unfolding install
install-IsAccounted old id slot p b s t h v e =
    let version : ℕ = (t.next_version + 1) % int64_mod in
    let state : ValueState = state_of p version slot in
    let entry : ExpiryEntry = record {
      item_id = p.item_id;
      value_version = version;
      expire_at = state.expire_at;
    } in
    let (n, at) = lookup-insert s state id in
    elim (text_dec p.item_id id) [
      | yes same ↦ inr (
          registered_last id entry t.expiry v.value_version v.expire_at same (ground arith)
            (ground arith))
      | no other ↦ elim (h v (ground arith)) [
        | inl o ↦ inl o
        | inr f ↦
            inr (
              rw (has_entry-append id v.value_version v.expire_at t.expiry (entry ∷ []))
                (rw f refl))
      ]
    ]

pub write_step-IsAccounted :
    (old : Option ValueState) (id : String) (reads : Option MetadataReads) (slot : String → ℕ)
    (p : PendingValue) (s : ValueShard) (t : WriteTally)
    → IsAccounted old id s t
    → IsAccounted old id (write_step true reads slot p s t).0 (write_step true reads slot p s t).1
write_step-IsAccounted old id reads slot p s t h v e =
    elim (write_step-cases true reads slot p s t) [
      | inl (same, kept) ↦ rw kept (h v (rw same at e))
      | inr (inl (current, at, values, kept)) ↦ elim (text_dec p.item_id id) [
        | yes same ↦ rw kept (elim (h current (ground arith)) [
          | inl (o, f, g, i) ↦ inl (
            o,
            f,
            ground (
              arith,
              lookup-put p.item_id id (record current { last_fetch_at = p.fetched_at }) s.values,
            ),
            ground (
              arith,
              lookup-put p.item_id id (record current { last_fetch_at = p.fetched_at }) s.values,
            ),
          )
          | inr f ↦ inr (
              ground (
                arith,
                lookup-put p.item_id id (record current { last_fetch_at = p.fetched_at }) s.values,
              ))
        ])
        | no other ↦ rw kept (
            h v (
              ground (
                arith,
                lookup-put p.item_id id (record current { last_fetch_at = p.fetched_at }) s.values,
              )))
      ]
      | inr (inr (b, fresh, done)) ↦
          rw done (install-IsAccounted old id (slot p.item_id) p b s t h v (rw done at e))
    ]

-- What a step registers is added to what was registered before.
later_entries :
    (id : String) (v : ℕ) (x : Time) (reads : Option MetadataReads) (slot : String → ℕ)
    (p : PendingValue) (s : ValueShard) (t : WriteTally)
    → has_entry id v x t.expiry ≡ true
    → has_entry id v x (write_step true reads slot p s t).1.expiry ≡ true
unfolding install
later_entries id v x reads slot p s t h = elim (write_step-cases true reads slot p s t) [
  | inl (same, kept) ↦ rw kept h
  | inr (inl (current, at, values, kept)) ↦ rw kept h
  | inr (inr (b, fresh, done)) ↦ rw done (
      rw
        (has_entry-append id v x t.expiry (
          record {
            item_id = p.item_id;
            value_version = (t.next_version + 1) % int64_mod;
            expire_at = value_expire_at (source_of p) p.delay;
          }
          ∷ []))
        (rw h refl))
]

pub past_write_step-IsAccounted :
    (old : Option ValueState) (id : String) (reads : Option MetadataReads) (slot : String → ℕ)
    (p : PendingValue) (s s' : ValueShard) (t : WriteTally)
    → IsAccounted old id s t
    → IsAccounted old id s (write_step true reads slot p s' t).1
past_write_step-IsAccounted old id reads slot p s s' t h v e = elim (h v e) [
  | inl o ↦ inl o
  | inr f ↦ inr (later_entries id v.value_version v.expire_at reads slot p s' t f)
]
