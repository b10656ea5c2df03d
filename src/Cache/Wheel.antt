-- ===== src/Cache/Wheel.antt =====
-- internal/cache/expiry_wheel.go: registration, and the bounded round that deletes what is due.
-- The round is modelled with no registration between its batches. `delete` is the store's
-- DeleteVersioned, of an interface of the source.
pub mod Invariant
pub mod Batch
pub mod Rounds
pub mod Expiry
use zabbix_exporter.Prelude.{
  ℕ, zero, suc, ◌+◌, ◌-◌, ◌*◌, String, Bool, true, false, not, ◌&&◌, ◌||◌, List, [], ◌∷◌, ◌++◌,
  Option, none, some, ℤ, pos, negsuc, ltb, leb, ◌==◌, if◌then◌else◌, length, take, drop, keep,
}
use zabbix_exporter.Time.{Time, Duration, second, since}
use zabbix_exporter.Cache.Values.{VersionedItem, DeleteResult}
use zabbix_exporter.Cache.Buckets.{
  ExpiryEntry, Buckets, bucket_key, bucket_at, set_bucket, remove_bucket, entries_at, push_key,
  epoch_minutes,
}

abbrev pub expiry_delete_batch_size : ℕ
expiry_delete_batch_size = 4096

abbrev pub default_expiry_max_entries_per_run : ℕ
default_expiry_max_entries_per_run = 100_000

pub record ExpiryWheel : Type 0 where
  pub buckets : Buckets
  pub keys : List ℕ
  pub pending_entries : ℕ
  pub max_entries_per_run : ℕ
  pub last_processed_bucket : ℕ
  pub has_processed_bucket : Bool

pub record ExpiryResult : Type 0 where
  pub processed : ℕ
  pub completed_buckets : ℕ
  pub deleted : ℕ
  pub stale : ℕ
  pub not_found : ℕ
  pub limited : Bool
  pub pending_entries : ℕ
  pub pending_buckets : ℕ
  pub cleanup_lag : Duration
  pub last_processed_bucket : ℕ

-- `none` is the error for a negative limit. A key of 0 is the epoch's minute.
unfoldable pub new_expiry_wheel : ℤ → Option ExpiryWheel
new_expiry_wheel (negsuc n) = none
new_expiry_wheel (pos n) = some (record {
  buckets = [];
  keys = [];
  pending_entries = 0;
  max_entries_per_run = if n == 0 then default_expiry_max_entries_per_run else n;
  last_processed_bucket = epoch_minutes;
  has_processed_bucket = false;
})

unfoldable pub new_default_expiry_wheel : Option ExpiryWheel
unfolding new_expiry_wheel
new_default_expiry_wheel = new_expiry_wheel (pos 0)

unfoldable pub register_entry : ExpiryWheel → ExpiryEntry → ExpiryWheel
register_entry w entry =
    let key : ℕ = bucket_key entry.expire_at in
    elim (bucket_at key w.buckets) [
      | none ↦ record w {
        buckets = set_bucket key (entry ∷ []) w.buckets;
        keys = push_key key w.keys;
        pending_entries = w.pending_entries + 1;
      }
      | some entries ↦ record w {
        buckets = set_bucket key (entries ++ entry ∷ []) w.buckets;
        pending_entries = w.pending_entries + 1;
      }
    ]

unfoldable pub register_expiry : ExpiryWheel → List ExpiryEntry → ExpiryWheel
unfolding register_entry
register_expiry w [] = w
register_expiry w (entry ∷ entries) = register_expiry (register_entry w entry) entries

-- The earliest bucket that is not empty, if its key is due; empty ones on the way are dropped.
pub record FirstDue : Type 0 where
  pub keys : List ℕ
  pub buckets : Buckets
  pub found : Option (ℕ × List ExpiryEntry)

unfoldable pub first_due : ℕ → List ℕ → Buckets → FirstDue
first_due current [] b = record { keys = []; buckets = b; found = none }
first_due current (k ∷ ks) b = elim (entries_at k b) [
  | [] ↦ first_due current ks (remove_bucket k b)
  | e ∷ es ↦ record {
    keys = k ∷ ks;
    buckets = b;
    found = if ltb current k then none else some (k, e ∷ es);
  }
]

-- The heap is popped only if the key is in front.
unfoldable pub pop_key : ℕ → List ℕ → List ℕ
pop_key k [] = []
pop_key k (j ∷ ks) = if j == k then ks else j ∷ ks

-- removeEmptyBucketLocked, of a bucket that is the current one of its key.
unfoldable pub remove_empty : ℕ → ExpiryWheel → ExpiryWheel
unfolding pop_key
remove_empty k w = elim (entries_at k w.buckets) [
  | [] ↦ record w { buckets = remove_bucket k w.buckets; keys = pop_key k w.keys }
  | e ∷ es ↦ w
]

unfoldable pub smaller : ℕ → ℕ → ℕ
smaller limit n = if ltb limit n then limit else n

-- The size of the next batch: of what is left of the bucket, the budget, and the batch size.
unfoldable pub batch_size : ℕ → ℕ → ℕ → ℕ
unfolding smaller
batch_size remaining budget stored =
    smaller stored (smaller expiry_delete_batch_size (smaller budget remaining))

abbrev pub is_future : Time → ExpiryEntry → Bool
is_future now entry = ltb now entry.expire_at

abbrev pub versioned : List ExpiryEntry → List VersionedItem
versioned [] = []
versioned (e ∷ es) = record { item_id = e.item_id; value_version = e.value_version } ∷ versioned es

-- The difference of two times stops at the greatest int64.
unfoldable pub cleanup_lag : ExpiryWheel → Time → Duration
cleanup_lag w now = elim w.keys [ [] ↦ 0 | k ∷ _ ↦ since now ((k + 1) * 60 * second) ]

unfoldable pub update_last_processed : ℕ → ExpiryWheel → ExpiryWheel
update_last_processed current w =
    let through : ℕ = elim w.keys [
      | [] ↦ current
      | k ∷ _ ↦ if leb k current then k - 1 else current
    ] in
    if not w.has_processed_bucket || ltb w.last_processed_bucket through
    then record w { last_processed_bucket = through; has_processed_bucket = true }
    else w

unfoldable pub fill_result : Time → ExpiryWheel → ExpiryResult → ExpiryResult
unfolding cleanup_lag
fill_result now w r = record r {
  pending_entries = w.pending_entries;
  pending_buckets = length w.buckets;
  cleanup_lag = cleanup_lag w now;
  last_processed_bucket = w.last_processed_bucket;
}

pub record ExpiryStats : Type 0 where
  pub pending_entries : ℕ
  pub pending_buckets : ℕ
  pub cleanup_lag : Duration
  pub last_processed_bucket : ℕ

unfoldable pub wheel_stats : ExpiryWheel → Time → ExpiryStats
unfolding cleanup_lag
wheel_stats w now = record {
  pending_entries = w.pending_entries;
  pending_buckets = length w.buckets;
  cleanup_lag = cleanup_lag w now;
  last_processed_bucket = w.last_processed_bucket;
}

-- The local variables of ExpireDue. `has_active` says that `active_key` and `active_remaining`
-- describe a bucket.
pub record Round (S : Type 0) : Type 0 where
  pub wheel : ExpiryWheel
  pub store : S
  pub result : ExpiryResult
  pub active_key : ℕ
  pub active_remaining : ℕ
  pub has_active : Bool

pub data Flow (S : Type 0) : Type 0 where
  again : Round S → Flow S
  halt : Round S → Flow S

-- What a batch of `size` entries leaves in its bucket: the unexamined, then the deferred.
abbrev pub left : Time → ℕ → List ExpiryEntry → List ExpiryEntry
left now size entries = drop size entries ++ keep (is_future now) (take size entries)

abbrev pub due : Time → List ExpiryEntry → List ExpiryEntry
due now = keep (λ e. not (is_future now e))

-- The wheel after a batch, as the lock is released.
unfoldable pub cut_wheel : Time → ℕ → ℕ → List ExpiryEntry → ExpiryWheel → ExpiryWheel
unfolding remove_empty
cut_wheel now key size entries w =
    let w₁ : ExpiryWheel = record w {
      buckets = set_bucket key (left now size entries) w.buckets;
      pending_entries = w.pending_entries - length (due now (take size entries));
    } in
    if length (left now size entries) == 0 then remove_empty key w₁ else w₁

-- A bucket that the round has not begun is begun.
unfoldable pub activate : {S : Type 0} → Round S → ℕ → List ExpiryEntry → Round S
activate r key entries =
    if not r.has_active || not (r.active_key == key)
    then record r { active_key = key; active_remaining = length entries; has_active = true }
    else r

module _ {S : Type 0} (delete : S → List VersionedItem → S × DeleteResult) where
  -- The store is called only with something to delete.
  unfoldable pub delete_batch : List ExpiryEntry → S → ExpiryResult → S × ExpiryResult
  delete_batch [] s r = (s, r)
  delete_batch (e ∷ es) s r =
      let (s', d) = delete s (versioned (e ∷ es)) in
      (
        s',
        record r {
          deleted = r.deleted + d.deleted;
          stale = r.stale + d.stale;
          not_found = r.not_found + d.not_found;
        },
      )

  -- One batch of the bucket `key`: examined, deleted, and the future entries put back at the end.
  unfoldable pub process_batch : Time → Round S → ℕ → List ExpiryEntry → Flow S
  process_batch now r key entries =
      let size : ℕ =
        batch_size r.active_remaining (r.wheel.max_entries_per_run - r.result.processed)
          (length entries) in
      let removed : Bool = length (left now size entries) == 0 in
      let remaining : ℕ = r.active_remaining - size in
      let examined : ExpiryResult = record (r.result) { processed = r.result.processed + size } in
      let (store', result) = delete_batch (due now (take size entries)) r.store examined in
      let completed : ℕ =
        if removed then result.completed_buckets + 1 else result.completed_buckets in
      let r' : Round S = record {
        wheel = cut_wheel now key size entries r.wheel;
        store = store';
        result = record result { completed_buckets = completed };
        active_key = r.active_key;
        active_remaining = remaining;
        has_active = r.has_active && not removed;
      } in
      if removed then again r' else if remaining == 0 then halt r' else again r'

  unfoldable pub process_bucket : Time → Round S → ℕ → List ExpiryEntry → Flow S
  process_bucket now r key entries =
      if r.active_remaining == 0
      then again (record r {
        wheel = remove_empty key r.wheel;
        result = record (r.result) { completed_buckets = r.result.completed_buckets + 1 };
        has_active = false;
      })
      else process_batch now r key entries

  -- One turn of the loop of ExpireDue.
  unfoldable pub turn : Time → Round S → Flow S
  turn now r =
      let f = first_due (bucket_key now) r.wheel.keys r.wheel.buckets in
      let w : ExpiryWheel = record (r.wheel) { keys = f.keys; buckets = f.buckets } in
      let r₁ : Round S = record r { wheel = w } in
      if ltb r.result.processed r.wheel.max_entries_per_run
      then elim f.found [
        | none ↦ halt r₁
        | some (key, entries) ↦ process_bucket now (activate r₁ key entries) key entries
      ]
      else halt r

  -- Each turn examines an entry or stops, so the budget bounds the turns.
  unfoldable pub turns : ℕ → Time → Round S → Option (Round S)
  turns zero now r = none
  turns (suc fuel) now r = elim (turn now r) [ halt r' ↦ some r' | again r' ↦ turns fuel now r' ]

  -- `result.Limited`, LastProcessedBucket and the statistics, after the loop.
  unfoldable pub close_round : Time → Round S → Round S
  close_round now r =
      let current : ℕ = bucket_key now in
      let spent : Bool = r.result.processed == r.wheel.max_entries_per_run in
      let f = first_due current r.wheel.keys r.wheel.buckets in
      let found : Bool = elim f.found [ none ↦ false | some _ ↦ true ] in
      let w₁ : ExpiryWheel =
        if spent then record (r.wheel) { keys = f.keys; buckets = f.buckets } else r.wheel in
      let w₂ : ExpiryWheel = update_last_processed current w₁ in
      record r {
        wheel = w₂;
        result = fill_result now w₂ (record (r.result) { limited = spent && found });
      }

  abbrev pub no_result : ExpiryResult
  no_result = record {
    processed = 0;
    completed_buckets = 0;
    deleted = 0;
    stale = 0;
    not_found = 0;
    limited = false;
    pending_entries = 0;
    pending_buckets = 0;
    cleanup_lag = 0;
    last_processed_bucket = 0;
  }

  abbrev pub begin_round : ExpiryWheel → S → Round S
  begin_round w s = record {
    wheel = w;
    store = s;
    result = no_result;
    active_key = 0;
    active_remaining = 0;
    has_active = false;
  }

  unfoldable pub expire_due : ExpiryWheel → Time → S → Option (Round S)
  expire_due w now s = elim (turns (w.max_entries_per_run + 1) now (begin_round w s)) [
    | none ↦ none
    | some r ↦ some (close_round now r)
  ]

-- ExpireDue without a store: only the wheel's figures are returned.
unfoldable pub result_at : ExpiryWheel → Time → ExpiryResult
unfolding fill_result
result_at w now = fill_result now w (record {
  processed = 0;
  completed_buckets = 0;
  deleted = 0;
  stale = 0;
  not_found = 0;
  limited = false;
  pending_entries = 0;
  pending_buckets = 0;
  cleanup_lag = 0;
  last_processed_bucket = 0;
})
