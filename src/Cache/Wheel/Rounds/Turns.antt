-- ===== src/Cache/Wheel/Rounds/Turns.antt =====
-- A turn of the loop of ExpireDue: the search for the first due bucket, and its batch.
use zabbix_exporter.Prelude.{
  ℕ, ◌≤◌, ◌<◌, ◌≡◌, refl, sym, ap, subst, ◌∙◌, inl, inr, String, true, false, not, ◌||◌, List, [],
  some, ltb, ◌==◌, ==_iff, length, arith, Bool-cases, Option-cases,
}
use zabbix_exporter.Time.{Time}
use zabbix_exporter.Cache.Values.{VersionedItem, DeleteResult}
use zabbix_exporter.Cache.Buckets.{ExpiryEntry, bucket_key}
use zabbix_exporter.Cache.Buckets.Laws.{has_entry}
use zabbix_exporter.Cache.Wheel.{
  ExpiryWheel, ExpiryResult, FirstDue, first_due, Round, Flow, again, halt, process_batch, activate,
  process_bucket, turn,
}
use zabbix_exporter.Cache.Wheel.Invariant.{
  IsSynced, first_due-IsSynced, entries_at-first_due, first_due-none, first_due-some,
}
use zabbix_exporter.Cache.Wheel.Batch.{names, Rest, Rest-whole}
use zabbix_exporter.Cache.Wheel.Rounds.{
  entries_in, IsCovered, IsGood, Outcome, IsChosen, Outcome-if,
}
use zabbix_exporter.Cache.Wheel.Rounds.Batches.{batch-Outcome}

module _ {S : Type 0} (delete : S → List VersionedItem → S × DeleteResult)
    (holds : S → String → ℕ → Time → Type 0)
    (survives : (s : S) (items : List VersionedItem) (id : String) (v : ℕ) (x : Time)
      → holds (delete s items).0 id v x
      → holds s id v x × (names id v items ≡ false)) where
  module _ (now : Time) (r : Round S) (good : IsGood delete holds survives now r) where
    abbrev found : FirstDue
    found = first_due (bucket_key now) r.wheel.keys r.wheel.buckets

    -- The variables after the search has dropped empty buckets.
    abbrev searched : Round S
    searched = record r { wheel = record (r.wheel) { keys = found.keys; buckets = found.buckets } }

    searched-entries : (k : ℕ) → entries_in k searched.wheel ≡ entries_in k r.wheel
    searched-entries k = entries_at-first_due (bucket_key now) k r.wheel.keys r.wheel.buckets

    searched-IsSynced : IsSynced found.keys found.buckets
    searched-IsSynced = first_due-IsSynced (bucket_key now) r.wheel.keys r.wheel.buckets good.synced

    searched-IsCovered : IsCovered delete holds survives r.store searched.wheel
    searched-IsCovered id v x h =
        ap (has_entry id v x) (searched-entries (bucket_key x)) ∙ good.covered id v x h

    module _ (key : ℕ) (es : List ExpiryEntry) (e : found.found ≡ some (key, es))
        (lt : r.result.processed < r.wheel.max_entries_per_run) where
      hit :
          (key ≤ bucket_key now)
          × (es ≡ entries_in key r.wheel)
          × (0 < length es)
          × ((j : ℕ) → j < key → entries_in j r.wheel ≡ [])
      hit = first_due-some (bucket_key now) r.wheel.keys r.wheel.buckets key es good.synced e

      es_searched : es ≡ entries_in key searched.wheel
      es_searched = hit.1 ∙ sym (searched-entries key)

      -- The bucket is begun, or the round goes on with it.
      activate_cases :
          (P : Round S → Type 0)
          → P (record searched {
            active_key = key;
            active_remaining = length es;
            has_active = true;
          })
          → (r.has_active ≡ true → r.active_key ≡ key → P searched)
          → P (activate searched key es)
      unfolding activate
      activate_cases P begin continue =
          elim (Bool-cases (not r.has_active || not (r.active_key == key))) [
            | inl t ↦ rw t begin
            | inr f ↦ rw f (continue (ground arith) (ground arith))
          ]

      chosen : IsChosen delete holds survives now (activate searched key es) key
      chosen =
          activate_cases (λ r'. IsChosen delete holds survives now r' key)
            (record {
              synced = searched-IsSynced;
              covered = searched-IsCovered;
              budget = lt;
              active = refl;
              current = refl;
              remaining = hit.2;
              rest = subst (Rest now (length es)) es_searched (Rest-whole now es);
              stored = subst (λ fs. 0 < length fs) es_searched hit.2;
              is_due = hit.0;
              first = λ j below. searched-entries j ∙ hit.3 j below;
            })
            (λ a k. record {
              synced = searched-IsSynced;
              covered = searched-IsCovered;
              budget = lt;
              active = a;
              current = k;
              remaining = (good.active a).0;
              rest = rw (searched-entries key) (
                  subst (λ j. Rest now r.active_remaining (entries_in j r.wheel)) k
                    (good.active a).1);
              stored = subst (λ fs. 0 < length fs) es_searched hit.2;
              is_due = hit.0;
              first = λ j below. searched-entries j ∙ hit.3 j below;
            })

      activate-same :
          ((activate searched key es).wheel ≡ searched.wheel)
          × ((activate searched key es).result ≡ r.result)
      unfolding activate
      activate-same = ground arith

      bucket-Outcome :
          Outcome delete holds survives now
            (activate searched key es)
            (process_bucket delete now (activate searched key es) key es)
      unfolding process_bucket
      bucket-Outcome =
          Outcome-if delete holds survives now (activate searched key es)
            ((activate searched key es).active_remaining == 0) _
            (process_batch delete now (activate searched key es) key es)
            (λ z. absurd (
              let none_left : (activate searched key es).active_remaining ≡ 0 = (==_iff _ _).0 z in
              omega (arith, chosen.remaining)))
            (λ z.
              subst
                (λ fs.
                  Outcome delete holds survives now (activate searched key es)
                    (process_batch delete now (activate searched key es) key fs))
                (sym same_entries)
                (batch-Outcome delete holds survives now (activate searched key es) key chosen))
        where
          same_entries : es ≡ entries_in key (activate searched key es).wheel
          same_entries = es_searched ∙ ap (entries_in key) (sym activate-same.0)

    Outcome-same :
        (r' : Round S) (f : Flow S)
        → r'.wheel ≡ searched.wheel
        → r'.result ≡ r.result
        → Outcome delete holds survives now r' f
        → Outcome delete holds survives now r f
    Outcome-same r' (again x) w e o = (
      o.0,
      subst (λ (q : ExpiryResult). q.processed < x.result.processed) e o.1,
      o.2 ∙ ap (λ (q : ExpiryWheel). q.max_entries_per_run) w,
    )
    Outcome-same r' (halt x) w e o = o

    -- A turn keeps the meaning of the variables, and examines an entry or stops.
    pub turn-Outcome : Outcome delete holds survives now r (turn delete now r)
    unfolding turn
    turn-Outcome =
        Outcome-if delete holds survives now r (ltb r.result.processed r.wheel.max_entries_per_run)
          _ (halt r)
          (λ lt. elim (Option-cases found.found) [
            | inl n ↦ rw n (record {
              synced = searched-IsSynced;
              covered = searched-IsCovered;
              finished = inr (λ k le. rw (searched-entries k) (
                  rw
                    (first_due-none (bucket_key now) r.wheel.keys r.wheel.buckets good.synced n k
                      le)
                    tt));
            })
            | inr ((key, es), e) ↦ rw e (
                let same = activate-same key es e (ground arith) in
                Outcome-same (activate searched key es)
                  (process_bucket delete now (activate searched key es) key es) same.0 same.1
                  (bucket-Outcome key es e (ground arith)))
          ])
          (λ spent. record {
            synced = good.synced;
            covered = good.covered;
            finished = inl (ground (arith, good.within));
          })
