-- ===== src/Collector/Batches/Watermarks.antt =====
-- internal/collector/group_collector.go: the watermarks over the collection of batches and groups.
use zabbix_exporter.Prelude.{
  ◌≤◌, ◌≡◌, ◌⊎◌, refl, sym, ap, ◌∙◌, inl, inr, String, Bool, true, false, false≢true, not, ◌&&◌,
  List, [], ◌∷◌, Map, lookup, put, lookup-put, contains, keep, ite, text_dec, ltb, ◌==◌,
  if◌then◌else◌, arith, Bool-cases, ◌++◌, All,
}
use mathlib.Core.List.{Memᴰ}
use zabbix_exporter.Time.{Time}
use zabbix_exporter.Schedule.State.{Group, Batch}
use zabbix_exporter.Collector.{HistoryConfig}
use zabbix_exporter.Collector.Query.{Ports}
use zabbix_exporter.Collector.Query.Counts.{query-IsTold, IsTold}
use zabbix_exporter.Collector.Batches.{
  BatchCollectionResult, Collecting, watermark, finish, give_up, attempt_batch, collect_batch,
  collect_batches, collect_group, batch_ids, retained_ids, retain_groups,
}

watermark-put :
    (id j : String) (t : Time) (m : Map Time)
    → watermark (put id t m) j ≡ ite (text_dec id j) t (watermark m j)
unfolding watermark
watermark-put id j t m = ground (arith, lookup-put id j t m)

watermark_reput :
    (id j : String) (m : Map Time) → watermark (put id (watermark m id) m) j ≡ watermark m j
watermark_reput id j m = elim (text_dec id j) [
  | yes e ↦ ground (arith, watermark-put id j (watermark m id) m, ap (watermark m) e)
  | no n ↦ ground (arith, watermark-put id j (watermark m id) m)
]

module _ {ℓ} {W : Type ℓ} (ports : Ports W) (config : HistoryConfig) where
  -- How the collection of a batch ends: complete and without an error, with the batch's watermark at
  -- `till`, or with an error, and every watermark as before. No other watermark moves.
  abbrev pub IsCollected :
      String → Time → Collecting W → Collecting W × BatchCollectionResult → Type 0
  IsCollected id till c r =
      ((r.1.complete ≡ true)
        × ((r.1.errors ≡ [])
            × ((watermark c.states id ≤ till)
                × ((j : String)
                    → watermark r.0.states j ≡ ite (text_dec id j) till (watermark c.states j)))))
      ⊎ ((r.1.complete ≡ false)
          × (¬ (r.1.errors ≡ []) × ((j : String) → watermark r.0.states j ≡ watermark c.states j)))

  attempt_batch-IsTold :
      (group : Group) (batch : Batch) (mark till : Time) (w : W)
      → IsTold (attempt_batch ports config group batch mark till w).1
  unfolding attempt_batch
  attempt_batch-IsTold group batch mark till w =
      query-IsTold ports config group.delay (ports.snapshot w) config.max_split_depth w _

  -- The collection of a batch is complete if and only if it reports no error. If it is complete, the
  -- batch's watermark, which was not after `till`, is `till` now. If it is not, the watermark stays.
  -- The watermarks of other batches stay.
  pub collect_batch-IsCollected :
      (group : Group) (batch : Batch) (till : Time) (c : Collecting W)
      → IsCollected batch.id till c (collect_batch ports config group batch till c)
  unfolding collect_batch finish give_up
  collect_batch-IsCollected group batch till c =
      let mark : Time = watermark c.states batch.id in
      let told = attempt_batch-IsTold group batch mark till c.world in
      let reput = λ (j : String). watermark_reput batch.id j c.states in
      elim (Bool-cases (not (mark == 0) && ltb till mark)) [
        | inl early ↦ rw early (inr (refl, ((λ h. cc), reput)))
        | inr f ↦
            elim (Bool-cases
              (attempt_batch ports config group batch mark till c.world).1.complete) [
                | inl t ↦
                    let within : mark ≤ till = ground arith in
                    rw f (
                      rw t (
                        inl (
                          refl,
                          (
                            told.0 t,
                            (
                              within,
                              λ j.
                                  watermark-put batch.id j till (put batch.id mark c.states)
                                  ∙ ap (λ x. ite (text_dec batch.id j) till x) (reput j),
                            ),
                          ),
                        )))
                | inr n ↦ rw f (rw n (inr (refl, ((λ h. false≢true (sym n ∙ told.1 h)), reput))))
              ]
      ]

  batch_rises :
      (group : Group) (batch : Batch) (till : Time) (c : Collecting W) (j : String)
      → watermark c.states j ≤ watermark (collect_batch ports config group batch till c).0.states j
  batch_rises group batch till c j = elim (collect_batch-IsCollected group batch till c) [
    | inl (a, (b, (le, eq))) ↦ elim (text_dec batch.id j) [
      | yes e ↦ ground (arith, eq j, le, ap (watermark c.states) e)
      | no n ↦ ground (arith, eq j)
    ]
    | inr (a, (b, eq)) ↦ omega (arith, eq j)
  ]

  collect_batches_rises :
      (group : Group) (till : Time) (batches : List Batch) (c : Collecting W) (j : String)
      → watermark c.states j
        ≤ watermark (collect_batches ports config group till batches c).0.states j
  unfolding collect_batches
  collect_batches_rises group till [] c j = omega arith
  collect_batches_rises group till (batch ∷ batches) c j =
      elim (Bool-cases (ports.is_cancelled c.world)) [
        | inl t ↦ rw (t, collect_batches) (omega arith)
        | inr f ↦
            rw (f, collect_batches)
              (omega (
                arith,
                batch_rises group batch till c j,
                collect_batches_rises group till batches
                    (collect_batch ports config group batch till c).0 j,
              ))
      ]

  -- No watermark goes back while a group is collected, whatever the answers are and wherever the
  -- context is cancelled.
  pub collect_group_rises :
      (group : Group) (till : Time) (c : Collecting W) (j : String)
      → watermark c.states j ≤ watermark (collect_group ports config group till c).0.states j
  unfolding collect_group
  collect_group_rises group till c j =
      collect_batches_rises group (if till == 0 then ports.now c.world else till) group.batches c j

watermark-keep :
    (id : String) (p : String → Bool) (m : Map Time)
    → watermark (keep (λ kv. p kv.0) m) id ≡ (if p id then watermark m id else 0)
unfolding watermark lookup
watermark-keep id p [] = ground arith
watermark-keep id p ((j, t) ∷ m) = elim (text_dec j id) [
  | yes e ↦ ground (arith, watermark-keep id p m, ap p e)
  | no n ↦ ground (arith, watermark-keep id p m)
]

-- One of the groups has a batch of this id.
abbrev pub IsPresent : List Group → String → Type 0
IsPresent groups id =
    (group : Group) × (batch : Batch) × Memᴰ group groups
    × Memᴰ batch group.batches
    × (batch.id ≡ id)

batch_ids-found :
    (id : String) (batches : List Batch) (ids : List String)
    → contains id (batch_ids batches ++ ids) ≡ true
    → ((batch : Batch) × Memᴰ batch batches × (batch.id ≡ id)) ⊎ (contains id ids ≡ true)
unfolding batch_ids contains
batch_ids-found id [] ids h = inr h
batch_ids-found id (batch ∷ batches) ids h = elim (text_dec batch.id id) [
  | yes e ↦ inl (batch, Memᴰ.head refl, e)
  | no n ↦ elim (batch_ids-found id batches ids (ground arith)) [
    | inl (b, m, e) ↦ inl (b, Memᴰ.tail m, e)
    | inr later ↦ inr later
  ]
]

batch_ids-absent :
    (id : String) (batches : List Batch) (ids : List String)
    → contains id (batch_ids batches ++ ids) ≡ false
    → All (λ batch. batch.id ≡ id → ⊥) batches × (contains id ids ≡ false)
unfolding batch_ids contains
batch_ids-absent id [] ids h = (tt, h)
batch_ids-absent id (batch ∷ batches) ids h = elim (text_dec batch.id id) [
  | yes e ↦ absurd (ground arith)
  | no n ↦ let rest = batch_ids-absent id batches ids (ground arith) in ((n, rest.0), rest.1)
]

retained_ids-IsPresent :
    (groups : List Group) (id : String)
    → contains id (retained_ids groups) ≡ true
    → IsPresent groups id
unfolding retained_ids contains
retained_ids-IsPresent [] id h = cc
retained_ids-IsPresent (group ∷ groups) id h =
    elim (batch_ids-found id group.batches (retained_ids groups) h) [
      | inl (batch, m, e) ↦ (group, batch, Memᴰ.head refl, m, e)
      | inr later ↦
          let (g, b, mg, mb, e) = retained_ids-IsPresent groups id later in
          (g, b, Memᴰ.tail mg, mb, e)
    ]

retained_ids-absent :
    (groups : List Group) (id : String)
    → contains id (retained_ids groups) ≡ false
    → All (λ group. All (λ batch. batch.id ≡ id → ⊥) group.batches) groups
unfolding retained_ids
retained_ids-absent [] id h = tt
retained_ids-absent (group ∷ groups) id h =
    let here = batch_ids-absent id group.batches (retained_ids groups) h in
    (here.0, retained_ids-absent groups id here.1)

-- After a replacement of the groups, either one of the groups has a batch of this id, and the batch's
-- watermark is as it was, or no batch of any group has the id, and its watermark is the zero time.
pub watermark-retain_groups :
    (groups : List Group) (states : Map Time) (id : String)
    → IsPresent groups id × (watermark (retain_groups groups states) id ≡ watermark states id)
      ⊎ All (λ group. All (λ batch. batch.id ≡ id → ⊥) group.batches) groups
        × (watermark (retain_groups groups states) id ≡ 0)
unfolding retain_groups
watermark-retain_groups groups states id =
    let kept = watermark-keep id (λ j. contains j (retained_ids groups)) states in
    elim (Bool-cases (contains id (retained_ids groups))) [
      | inl t ↦ inl (retained_ids-IsPresent groups id t, rw t at kept)
      | inr f ↦ inr (retained_ids-absent groups id f, rw f at kept)
    ]
