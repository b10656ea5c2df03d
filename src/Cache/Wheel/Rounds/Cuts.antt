-- ===== src/Cache/Wheel/Rounds/Cuts.antt =====
-- What is left of the wheel and the store after a batch of entries of one bucket.
use zabbix_exporter.Prelude.{
  ℕ, ◌-◌, ◌≤◌, ◌<◌, ◌≡◌, refl, sym, subst, ◌∙◌, inl, inr, String, true, false, List, [], ◌∷◌, ltb,
  ◌==◌, ==_iff, length, take, drop, All, arith, Bool-cases, List-cases, All-append, All-take,
  All-drop, All-keep,
}
use zabbix_exporter.Time.{Time}
use zabbix_exporter.Cache.Values.{VersionedItem, DeleteResult}
use zabbix_exporter.Cache.Buckets.{ExpiryEntry, bucket_key, set_bucket, entries_at}
use zabbix_exporter.Cache.Buckets.Laws.{bucket_key_mono, entries_at-set, has_key, has_entry}
use zabbix_exporter.Cache.Wheel.{
  ExpiryWheel, ExpiryResult, remove_empty, is_future, left, due, cut_wheel, versioned, delete_batch,
}
use zabbix_exporter.Cache.Wheel.Invariant.{
  IsSynced, set_bucket-IsSynced, remove_empty-IsSynced, entries_at-remove_empty,
}
use zabbix_exporter.Cache.Wheel.Batch.{names, deferred, has_entry-left}
use zabbix_exporter.Cache.Wheel.Rounds.{entries_in, IsClean, IsCovered}

module _ {S : Type 0} (delete : S → List VersionedItem → S × DeleteResult)
    (holds : S → String → ℕ → Time → Type 0)
    (survives : (s : S) (items : List VersionedItem) (id : String) (v : ℕ) (x : Time)
      → holds (delete s items).0 id v x
      → holds s id v x × (names id v items ≡ false)) where
  delete_batch-holds :
      (es : List ExpiryEntry) (s : S) (res : ExpiryResult) (id : String) (v : ℕ) (x : Time)
      → holds (delete_batch delete es s res).0 id v x
      → holds s id v x × (names id v (versioned es) ≡ false)
  unfolding delete_batch names
  delete_batch-holds [] s res id v x h = (h, refl)
  delete_batch-holds (e ∷ es) s res id v x h = survives s (versioned (e ∷ es)) id v x h

  -- The wheel and the store after a batch of `n` entries of the bucket `key`.
  module _ (now : Time) (w : ExpiryWheel) (s : S) (res : ExpiryResult) (key n : ℕ) where
    abbrev entries : List ExpiryEntry
    entries = entries_in key w

    pub covered_left :
        IsCovered delete holds survives s w
        → (id : String) (v : ℕ) (x : Time)
        → holds (delete_batch delete (due now (take n entries)) s res).0 id v x
        → has_entry id v x
            (entries_at (bucket_key x) (set_bucket key (left now n entries) w.buckets))
          ≡ true
    covered_left c id v x h =
        let before = delete_batch-holds (due now (take n entries)) s res id v x h in
        let was : has_entry id v x (entries_in (bucket_key x) w) ≡ true = c id v x before.0 in
        rw (entries_at-set (bucket_key x) key (left now n entries) w.buckets)
          (elim (Bool-cases (key == bucket_key x)) [
            | inl t ↦ rw t (
                let e : key ≡ bucket_key x = (==_iff key (bucket_key x)).0 t in
                let here : has_entry id v x entries ≡ true =
                  subst (λ k. has_entry id v x (entries_at k w.buckets) ≡ true) (sym e) was in
                elim (has_entry-left now n id v x entries here) [
                  | inl l ↦ l
                  | inr d ↦ absurd (let f : true ≡ false = sym d ∙ before.1 in cc)
                ])
            | inr f ↦ rw f was
          ])

  pub delete_batch-processed :
      (es : List ExpiryEntry) (s : S) (res : ExpiryResult)
      → (delete_batch delete es s res).1.processed ≡ res.processed
  unfolding delete_batch
  delete_batch-processed [] s res = refl
  delete_batch-processed (e ∷ es) s res = refl

  remove_empty-max :
      (k : ℕ) (w : ExpiryWheel) → (remove_empty k w).max_entries_per_run ≡ w.max_entries_per_run
  unfolding remove_empty
  remove_empty-max k w = elim (List-cases (entries_at k w.buckets)) [
    | inl n ↦ rw (n, remove_empty) refl
    | inr (e, es, n) ↦ rw (n, remove_empty) refl
  ]

  pub in_heap :
      (w : ExpiryWheel) (key : ℕ)
      → IsSynced w.keys w.buckets
      → 0 < length (entries_in key w)
      → has_key key w.keys ≡ true
  in_heap w key h lt = elim (h.synced key) [ inl n ↦ absurd (ground arith) | inr m ↦ m ]

  -- If the entries of the first due bucket are in the future, then so is all that is left: a
  -- future entry in a due bucket makes it the bucket of the current minute.
  pub IsClean-of_first :
      (now : Time) (w : ExpiryWheel) (key : ℕ)
      → IsSynced w.keys w.buckets
      → 0 < length (entries_in key w)
      → ((j : ℕ) → j < key → entries_in j w ≡ [])
      → All (λ e. now < e.expire_at) (entries_in key w)
      → key ≤ bucket_key now
      → IsClean now w
  IsClean-of_first now w key h stored first future le k kle = elim (List-cases (entries_in key w)) [
    | inl n ↦ absurd (ground arith)
    | inr (e, es, n) ↦
        let minute : All (λ e. bucket_key e.expire_at ≡ key) (e ∷ es) = rw n at (h.keyed key) in
        let later : All (λ e. now < e.expire_at) (e ∷ es) = rw n at future in
        let same : bucket_key now ≤ key =
          omega (arith, bucket_key_mono now e.expire_at (omega (arith, later.0)), minute.0) in
        elim (Bool-cases (ltb k key)) [
          | inl t ↦ rw (first k (ground arith)) tt
          | inr f ↦
              let e' : key ≡ k = ground arith in
              subst (λ j. All (λ e. now < e.expire_at) (entries_in j w)) e' future
        ]
  ]

  module _ (now : Time) (w : ExpiryWheel) (key n : ℕ) where
    pub cut-entries :
        (j : ℕ)
        → entries_in j (cut_wheel now key n (entries_in key w) w)
          ≡ entries_at j (set_bucket key (left now n (entries_in key w)) w.buckets)
    unfolding cut_wheel
    cut-entries j = ground (
      arith,
      entries_at-remove_empty key j (record w {
        buckets = set_bucket key (left now n (entries_in key w)) w.buckets;
        pending_entries = w.pending_entries - length (due now (take n (entries_in key w)));
      }),
    )

    pub cut-max :
        (cut_wheel now key n (entries_in key w) w).max_entries_per_run ≡ w.max_entries_per_run
    unfolding cut_wheel
    cut-max = ground (
      arith,
      remove_empty-max key (record w {
        buckets = set_bucket key (left now n (entries_in key w)) w.buckets;
        pending_entries = w.pending_entries - length (due now (take n (entries_in key w)));
      }),
    )

    pub cut-IsSynced :
        has_key key w.keys ≡ true
        → IsSynced w.keys w.buckets
        → IsSynced
            (cut_wheel now key n (entries_in key w) w).keys
            (cut_wheel now key n (entries_in key w) w).buckets
    unfolding cut_wheel
    cut-IsSynced m h =
        let w₁ : ExpiryWheel = record w {
          buckets = set_bucket key (left now n (entries_in key w)) w.buckets;
          pending_entries = w.pending_entries - length (due now (take n (entries_in key w)));
        } in
        let before : IsSynced w₁.keys w₁.buckets =
          set_bucket-IsSynced w.keys w.buckets key (left now n (entries_in key w)) m
            (All-append (λ e. bucket_key e.expire_at ≡ key) (drop n (entries_in key w))
              (deferred now (take n (entries_in key w)))
              (All-drop _ n (entries_in key w) (h.keyed key))
              (All-keep _ (is_future now) (take n (entries_in key w))
                (All-take _ n (entries_in key w) (h.keyed key))))
            h in
        elim (Bool-cases (length (left now n (entries_in key w)) == 0)) [
          | inl t ↦ rw t (remove_empty-IsSynced key w₁ before)
          | inr f ↦ rw f before
        ]
