-- ===== src/Cache/Wheel/Expiry.antt =====
-- ExpireDue as a whole: its end, and what it leaves in the wheel and in the store.
use zabbix_exporter.Prelude.{
  ℕ, suc, zero, ◌+◌, ◌-◌, ◌<◌, ◌≡◌, refl, ap, subst, ◌∙◌, ◌⊎◌, inl, inr, String, false, false≢true,
  List, some, ltb, ◌==◌, arith, Bool-cases, List-cases,
}
use zabbix_exporter.Time.{Time}
use zabbix_exporter.Cache.Values.{VersionedItem, DeleteResult}
use zabbix_exporter.Cache.Buckets.{bucket_key, entries_at}
use zabbix_exporter.Cache.Buckets.Laws.{bucket_key_mono, has_entry_all}
use zabbix_exporter.Cache.Wheel.{
  ExpiryWheel, first_due, Round, Flow, again, halt, turn, turns, update_last_processed, fill_result,
  close_round, begin_round, expire_due,
}
use zabbix_exporter.Cache.Wheel.Invariant.{
  IsSynced, first_due-IsSynced, entries_at-first_due, first_due-none,
}
use zabbix_exporter.Cache.Wheel.Batch.{names}
use zabbix_exporter.Cache.Wheel.Rounds.{IsClean, IsCovered, IsGood, IsStopped, Outcome, entries_in}
use zabbix_exporter.Cache.Wheel.Rounds.Turns.{turn-Outcome}

Flow-cases :
    {S : Type 0} (f : Flow S) → ((r : Round S) × (f ≡ again r)) ⊎ ((r : Round S) × (f ≡ halt r))
Flow-cases (again r) = inl (r, refl)
Flow-cases (halt r) = inr (r, refl)

update-same :
    (current : ℕ) (w : ExpiryWheel)
    → ((update_last_processed current w).keys ≡ w.keys)
      × ((update_last_processed current w).buckets ≡ w.buckets)
unfolding update_last_processed
update-same current w = elim (List-cases w.keys) [
  | inl n ↦ ground arith
  | inr (k, ks, n) ↦ ground arith
]

module _ {S : Type 0} (delete : S → List VersionedItem → S × DeleteResult)
    (holds : S → String → ℕ → Time → Type 0)
    (survives : (s : S) (items : List VersionedItem) (id : String) (v : ℕ) (x : Time)
      → holds (delete s items).0 id v x
      → holds s id v x × (names id v items ≡ false)) where
  -- The fuel of the loop suffices: each turn that goes on spends some of the budget.
  pub turns_total :
      (fuel : ℕ) (now : Time) (r : Round S)
      → IsGood delete holds survives now r
      → r.wheel.max_entries_per_run - r.result.processed < fuel
      → (r' : Round S) × (turns delete fuel now r ≡ some r')
        × IsStopped delete holds survives now r'
  unfolding turns
  turns_total zero now r g h = absurd (omega arith)
  turns_total (suc fuel) now r g h = elim (Flow-cases (turn delete now r)) [
    | inl (r', e) ↦
        let o : Outcome delete holds survives now r (again r') =
          subst (Outcome delete holds survives now r) e
            (turn-Outcome delete holds survives now r g) in
        let rest = turns_total fuel now r' o.0 (omega (arith, o.1, o.2, (o.0).within)) in
        (rest.0, rw (e, turns) rest.1, rest.2)
    | inr (r', e) ↦ (
      r',
      rw (e, turns) refl,
      subst (Outcome delete holds survives now r) e (turn-Outcome delete holds survives now r g),
    )
  ]

  module _ (now : Time) (r : Round S) (h : IsStopped delete holds survives now r) where
    close-store : (close_round delete now r).store ≡ r.store
    unfolding close_round
    close-store = refl

    close_wheel :
        (P : ExpiryWheel → Type 0)
        → ((w : ExpiryWheel) → w.keys ≡ r.wheel.keys → w.buckets ≡ r.wheel.buckets → P w)
        → ((w : ExpiryWheel)
            → w.keys ≡ (first_due (bucket_key now) r.wheel.keys r.wheel.buckets).keys
            → w.buckets ≡ (first_due (bucket_key now) r.wheel.keys r.wheel.buckets).buckets
            → P w)
        → P (close_round delete now r).wheel
    unfolding close_round
    close_wheel P whole searched =
        elim (Bool-cases (r.result.processed == r.wheel.max_entries_per_run)) [
          | inl t ↦
              rw t
                (searched _ (update-same (bucket_key now) _).0 (update-same (bucket_key now) _).1)
          | inr f ↦
              rw f (whole _ (update-same (bucket_key now) _).0 (update-same (bucket_key now) _).1)
        ]

    close-entries : (k : ℕ) → entries_in k (close_round delete now r).wheel ≡ entries_in k r.wheel
    close-entries k =
        close_wheel (λ w. entries_in k w ≡ entries_in k r.wheel) (λ w a b. ap (entries_at k) b)
          (λ w a b.
            ap (entries_at k) b
            ∙ entries_at-first_due (bucket_key now) k r.wheel.keys r.wheel.buckets)

    close-IsSynced :
        IsSynced (close_round delete now r).wheel.keys (close_round delete now r).wheel.buckets
    close-IsSynced =
        close_wheel (λ w. IsSynced w.keys w.buckets) (λ w a b. rw (a, b) h.synced)
          (λ w a b.
            rw (a, b) (first_due-IsSynced (bucket_key now) r.wheel.keys r.wheel.buckets h.synced))

    -- A round that is not limited leaves nothing that is due.
    close-IsClean :
        (close_round delete now r).result.limited ≡ false
        → IsClean now (close_round delete now r).wheel
    unfolding close_round fill_result
    close-IsClean e k le = rw (close-entries k) (elim h.finished [
      | inl spent ↦
          rw
            (first_due-none (bucket_key now) r.wheel.keys r.wheel.buckets h.synced (ground arith) k
              le)
            tt
      | inr clean ↦ clean k le
    ])

  -- A round over a wheel that covers the store: it ends, it still covers, and unless it was
  -- limited every generation that the store still holds expires after `now`.
  pub expire_due_total :
      (w : ExpiryWheel) (now : Time) (s : S)
      → IsSynced w.keys w.buckets
      → IsCovered delete holds survives s w
      → (r : Round S) × (expire_due delete w now s ≡ some r)
        × IsSynced r.wheel.keys r.wheel.buckets
        × IsCovered delete holds survives r.store r.wheel
        × (r.result.limited ≡ false
            → (id : String) (v : ℕ) (x : Time) → holds r.store id v x
            → now < x)
  unfolding expire_due
  expire_due_total w now s synced covered =
      let start : IsGood delete holds survives now (begin_round delete w s) = record {
        synced = synced;
        covered = covered;
        within = omega arith;
        active = λ a. absurd (false≢true a);
      } in
      let (r, e, stopped) =
        turns_total (w.max_entries_per_run + 1) now (begin_round delete w s) start (omega arith) in
      let covers : IsCovered delete holds survives (close_round delete now r).store
          (close_round delete now r).wheel =
        λ id v x h.
          rw (close-entries now r stopped (bucket_key x))
            (stopped.covered id v x (subst (λ t. holds t id v x) (close-store now r stopped) h)) in
      (
        close_round delete now r,
        rw (e, expire_due) refl,
        close-IsSynced now r stopped,
        covers,
        λ free id v x h. elim (Bool-cases (ltb now x)) [
          | inl t ↦ ground arith
          | inr f ↦
              has_entry_all (λ y. now < y) id v x
                (entries_in (bucket_key x) (close_round delete now r).wheel)
                (close-IsClean now r stopped free (bucket_key x)
                  (bucket_key_mono x now (ground arith)))
                (covers id v x h)
        ],
      )
