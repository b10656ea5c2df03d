-- ===== src/Cache/Wheel/Rounds/Batches.antt =====
-- processBatch of a chosen bucket, as the end of a turn of the loop.
use zabbix_exporter.Prelude.{
  ℕ, ◌+◌, ◌-◌, ◌≤◌, ◌<◌, ◌≡◌, sym, ap, subst, ◌∙◌, inr, String, Bool, true, false, not, ◌&&◌, List,
  [], ◌==◌, ==_iff, if◌then◌else◌, length, take, drop, All, arith,
}
use zabbix_exporter.Time.{Time}
use zabbix_exporter.Cache.Values.{VersionedItem, DeleteResult}
use zabbix_exporter.Cache.Buckets.{ExpiryEntry, bucket_key, set_bucket, entries_at}
use zabbix_exporter.Cache.Buckets.Laws.{entries_at-set, has_entry}
use zabbix_exporter.Cache.Wheel.{
  ExpiryResult, batch_size, left, due, cut_wheel, Round, again, halt, delete_batch, process_batch,
  expiry_delete_batch_size,
}
use zabbix_exporter.Cache.Wheel.Invariant.{IsSynced}
use zabbix_exporter.Cache.Wheel.Batch.{names, Rest, left-Rest, batch_size_bounds}
use zabbix_exporter.Cache.Wheel.Rounds.{
  entries_in, IsCovered, IsGood, Outcome, IsChosen, Outcome-if,
}
use zabbix_exporter.Cache.Wheel.Rounds.Cuts.{
  covered_left, delete_batch-processed, in_heap, IsClean-of_first, cut-entries, cut-max,
  cut-IsSynced,
}

module _ {S : Type 0} (delete : S → List VersionedItem → S × DeleteResult)
    (holds : S → String → ℕ → Time → Type 0)
    (survives : (s : S) (items : List VersionedItem) (id : String) (v : ℕ) (x : Time)
      → holds (delete s items).0 id v x
      → holds s id v x × (names id v items ≡ false)) where
  module _ (now : Time) (r : Round S) (key : ℕ) (c : IsChosen delete holds survives now r key) where
    abbrev stock : List ExpiryEntry
    stock = entries_in key r.wheel

    abbrev size : ℕ
    size =
        batch_size r.active_remaining (r.wheel.max_entries_per_run - r.result.processed)
          (length stock)

    abbrev removed : Bool
    removed = length (left now size stock) == 0

    abbrev deletion : S × ExpiryResult
    deletion =
        delete_batch delete (due now (take size stock)) r.store
          (record (r.result) { processed = r.result.processed + size })

    -- The variables after the batch.
    abbrev after : Round S
    after = record {
      wheel = cut_wheel now key size stock r.wheel;
      store = deletion.0;
      result = record (deletion.1) {
        completed_buckets =
            if removed then deletion.1.completed_buckets + 1 else deletion.1.completed_buckets;
      };
      active_key = r.active_key;
      active_remaining = r.active_remaining - size;
      has_active = r.has_active && not removed;
    }

    sizes :
        (0 < size)
        × (size ≤ r.active_remaining)
        × (size ≤ r.wheel.max_entries_per_run - r.result.processed)
        × (size ≤ length stock)
        × (size ≤ expiry_delete_batch_size)
    sizes =
        batch_size_bounds r.active_remaining (r.wheel.max_entries_per_run - r.result.processed)
          (length stock) c.remaining (omega (arith, c.budget)) c.stored

    after-processed : after.result.processed ≡ r.result.processed + size
    after-processed =
        delete_batch-processed delete holds survives (due now (take size stock)) r.store
          (record (r.result) { processed = r.result.processed + size })

    after-max : after.wheel.max_entries_per_run ≡ r.wheel.max_entries_per_run
    after-max = cut-max delete holds survives now r.wheel key size

    after-IsSynced : IsSynced after.wheel.keys after.wheel.buckets
    after-IsSynced =
        cut-IsSynced delete holds survives now r.wheel key size
          (in_heap delete holds survives r.wheel key c.synced c.stored) c.synced

    after-IsCovered : IsCovered delete holds survives after.store after.wheel
    after-IsCovered id v x h =
        ap (has_entry id v x)
          (cut-entries delete holds survives now r.wheel key size (bucket_key x))
        ∙ covered_left delete holds survives now r.wheel r.store
            (record (r.result) { processed = r.result.processed + size }) key size c.covered id v x
            h

    after-key : entries_in key after.wheel ≡ left now size stock
    after-key = cut-entries delete holds survives now r.wheel key size key ∙ set_self
      where
        set_self :
            entries_at key (set_bucket key (left now size stock) r.wheel.buckets)
            ≡ left now size stock
        set_self = ground (arith, entries_at-set key key (left now size stock) r.wheel.buckets)

    after-Rest : Rest now (r.active_remaining - size) (entries_in key after.wheel)
    after-Rest = rw after-key (left-Rest now size r.active_remaining stock sizes.1 c.rest)

    after-first : (j : ℕ) → j < key → entries_in j after.wheel ≡ []
    after-first j lt = cut-entries delete holds survives now r.wheel key size j ∙ other
      where
        other : entries_at j (set_bucket key (left now size stock) r.wheel.buckets) ≡ []
        other =
            ground (arith, entries_at-set j key (left now size stock) r.wheel.buckets, c.first j lt)

    after-IsGood :
        (after.has_active ≡ true → 0 < after.active_remaining)
        → IsGood delete holds survives now after
    after-IsGood more = record {
      synced = after-IsSynced;
      covered = after-IsCovered;
      within = omega (arith, after-processed, after-max, sizes.2, c.budget);
      active = λ a. (
        more a,
        subst (λ k. Rest now after.active_remaining (entries_in k after.wheel)) (sym c.current)
            after-Rest,
      );
    }

    pub batch-Outcome : Outcome delete holds survives now r (process_batch delete now r key stock)
    unfolding process_batch
    batch-Outcome =
        Outcome-if delete holds survives now r removed (again after)
          (if after.active_remaining == 0 then halt after else again after)
          (λ t. (
            after-IsGood (λ a. absurd (ground arith)),
            omega (arith, after-processed, sizes.0),
            after-max,
          ))
          (λ f.
            Outcome-if delete holds survives now r (after.active_remaining == 0) (halt after)
              (again after)
              (λ z. record {
                synced = after-IsSynced;
                covered = after-IsCovered;
                finished = inr (
                    IsClean-of_first delete holds survives now after.wheel key after-IsSynced
                      (rw after-key (ground arith)) after-first
                      (let none_left : after.active_remaining ≡ 0 = (==_iff _ _).0 z in
                        subst
                          (λ a. All (λ e. now < e.expire_at) (drop a (entries_in key after.wheel)))
                          none_left after-Rest.1)
                      c.is_due);
              })
              (λ z. (
                after-IsGood (λ a. ground arith),
                omega (arith, after-processed, sizes.0),
                after-max,
              )))
