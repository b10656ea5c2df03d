-- ===== src/Cache/Wheel/Rounds.antt =====
-- What the loop of ExpireDue keeps, over a store that keeps the contract of a versioned deletion.
pub mod Cuts
pub mod Batches
pub mod Turns
use zabbix_exporter.Prelude.{
  ℕ, ◌+◌, ◌-◌, ◌≤◌, ◌<◌, ◌≡◌, refl, sym, ap, subst, ◌∙◌, ◌⊎◌, inl, inr, String, Bool, true, false,
  not, ◌&&◌, ◌||◌, List, [], ◌∷◌, some, ltb, ◌==◌, ==_iff, if◌then◌else◌, length, take, drop, All,
  arith, Bool-cases, List-cases, Option-cases, All-append, All-take, All-drop, All-keep,
}
use zabbix_exporter.Time.{Time}
use zabbix_exporter.Cache.Values.{VersionedItem, DeleteResult}
use zabbix_exporter.Cache.Buckets.{ExpiryEntry, bucket_key, set_bucket, entries_at}
use zabbix_exporter.Cache.Buckets.Laws.{bucket_key_mono, entries_at-set, has_key, has_entry}
use zabbix_exporter.Cache.Wheel.{
  ExpiryWheel, ExpiryResult, FirstDue, first_due, remove_empty, batch_size, is_future, left, due,
  cut_wheel, versioned, Round, Flow, again, halt, delete_batch, process_batch, activate,
  process_bucket, turn, expiry_delete_batch_size,
}
use zabbix_exporter.Cache.Wheel.Invariant.{
  IsSynced, set_bucket-IsSynced, first_due-IsSynced, entries_at-first_due, first_due-none,
  first_due-some, remove_empty-IsSynced, entries_at-remove_empty,
}
use zabbix_exporter.Cache.Wheel.Batch.{
  names, deferred, Rest, has_entry-left, left-Rest, Rest-whole, batch_size_bounds,
}

abbrev pub entries_in : ℕ → ExpiryWheel → List ExpiryEntry
entries_in k w = entries_at k w.buckets

-- No entry that is due is left in the wheel.
abbrev pub IsClean : Time → ExpiryWheel → Type 0
IsClean now w = (k : ℕ) → k ≤ bucket_key now → All (λ e. now < e.expire_at) (entries_in k w)

module _ {S : Type 0} (delete : S → List VersionedItem → S × DeleteResult)
    (holds : S → String → ℕ → Time → Type 0)
    (survives : (s : S) (items : List VersionedItem) (id : String) (v : ℕ) (x : Time)
      → holds (delete s items).0 id v x
      → holds s id v x × (names id v items ≡ false)) where
  -- Every stored generation has its entry in the wheel, in the bucket of its expiry time.
  abbrev pub IsCovered : S → ExpiryWheel → Type 0
  IsCovered s w =
      (id : String) (v : ℕ) (x : Time)
      → holds s id v x
      → has_entry id v x (entries_in (bucket_key x) w) ≡ true

  -- What the local variables of the loop mean between two turns.
  pub record IsGood (now : Time) (r : Round S) : Type 0 where
    pub synced : IsSynced r.wheel.keys r.wheel.buckets
    pub covered : IsCovered r.store r.wheel
    pub within : r.result.processed ≤ r.wheel.max_entries_per_run
    pub active :
        r.has_active ≡ true
        → (0 < r.active_remaining) × Rest now r.active_remaining (entries_in r.active_key r.wheel)

  -- How a round may stop: the budget is spent, or nothing that is due is left.
  pub record IsStopped (now : Time) (r : Round S) : Type 0 where
    pub synced : IsSynced r.wheel.keys r.wheel.buckets
    pub covered : IsCovered r.store r.wheel
    pub finished : (r.result.processed ≡ r.wheel.max_entries_per_run) ⊎ IsClean now r.wheel

  -- A turn goes on with more entries examined, or stops.
  abbrev pub Outcome : Time → Round S → Flow S → Type 0
  Outcome now r (again r') =
      IsGood now r'
      × (r.result.processed < r'.result.processed)
      × (r'.wheel.max_entries_per_run ≡ r.wheel.max_entries_per_run)
  Outcome now r (halt r') = IsStopped now r'

  -- A bucket that a turn has chosen and begun.
  pub record IsChosen (now : Time) (r : Round S) (key : ℕ) : Type 0 where
    pub synced : IsSynced r.wheel.keys r.wheel.buckets
    pub covered : IsCovered r.store r.wheel
    pub budget : r.result.processed < r.wheel.max_entries_per_run
    pub active : r.has_active ≡ true
    pub current : r.active_key ≡ key
    pub remaining : 0 < r.active_remaining
    pub rest : Rest now r.active_remaining (entries_in key r.wheel)
    pub stored : 0 < length (entries_in key r.wheel)
    pub is_due : key ≤ bucket_key now
    pub first : (j : ℕ) → j < key → entries_in j r.wheel ≡ []

  pub Outcome-if :
      (now : Time) (r : Round S) (b : Bool) (f g : Flow S)
      → (b ≡ true → Outcome now r f)
      → (b ≡ false → Outcome now r g)
      → Outcome now r (if b then f else g)
  Outcome-if now r true f g yes' no' = yes' refl
  Outcome-if now r false f g yes' no' = no' refl
