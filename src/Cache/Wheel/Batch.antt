-- ===== src/Cache/Wheel/Batch.antt =====
-- One batch: which entries leave the wheel, and which stay.
use zabbix_exporter.Prelude.{
  ℕ, ◌-◌, ◌≤◌, ◌<◌, ◌≡◌, sym, ap, ◌∙◌, ◌⊎◌, String, Bool, true, false, ◌||◌, List, [], ◌∷◌, ◌==◌,
  ite, text_dec, length, take, drop, keep, All, arith, take-append-drop, length-drop, length-append,
  drop-append, drop-drop, All-append,
}
use zabbix_exporter.Time.{Time}
use zabbix_exporter.Cache.Values.{VersionedItem}
use zabbix_exporter.Cache.Buckets.{ExpiryEntry}
use zabbix_exporter.Cache.Buckets.Laws.{has_entry, has_entry-append}
use zabbix_exporter.Cache.Wheel.{
  batch_size, smaller, is_future, left, due, versioned, expiry_delete_batch_size,
}

-- A request of a deletion names the generation.
unfoldable pub names : String → ℕ → List VersionedItem → Bool
names id v [] = false
names id v (q ∷ qs) = ite (text_dec q.item_id id) (q.value_version == v) false || names id v qs

abbrev pub deferred : Time → List ExpiryEntry → List ExpiryEntry
deferred now = keep (is_future now)

pub names-versioned :
    (id : String) (v : ℕ) (x : Time) (es : List ExpiryEntry)
    → has_entry id v x es ≡ true
    → names id v (versioned es) ≡ true
unfolding names has_entry
names-versioned id v x [] h = cc
names-versioned id v x (e ∷ es) h = ground (arith, names-versioned id v x es)

-- Every entry is deferred or due.
pub has_entry_split :
    (now : Time) (id : String) (v : ℕ) (x : Time) (es : List ExpiryEntry)
    → has_entry id v x es ≡ true
    → (has_entry id v x (deferred now es) ≡ true) ⊎ (has_entry id v x (due now es) ≡ true)
unfolding has_entry
has_entry_split now id v x [] h = cc
has_entry_split now id v x (e ∷ es) h = ground (arith, has_entry_split now id v x es)

pub deferred-future :
    (now : Time) (es : List ExpiryEntry) → All (λ e. now < e.expire_at) (deferred now es)
deferred-future now [] = tt
deferred-future now (e ∷ es) = ground (arith, deferred-future now es)

pub due-expired : (now : Time) (es : List ExpiryEntry) → All (λ e. e.expire_at ≤ now) (due now es)
due-expired now [] = tt
due-expired now (e ∷ es) = ground (arith, due-expired now es)

pub batch_size_bounds :
    (remaining budget stored : ℕ)
    → 0 < remaining
    → 0 < budget
    → 0 < stored
    → (0 < batch_size remaining budget stored)
      × (batch_size remaining budget stored ≤ remaining)
      × (batch_size remaining budget stored ≤ budget)
      × (batch_size remaining budget stored ≤ stored)
      × (batch_size remaining budget stored ≤ expiry_delete_batch_size)
unfolding batch_size smaller
batch_size_bounds remaining budget stored a b c = ground arith

-- An entry that is not left was due and in the batch.
pub has_entry-left :
    (now : Time) (n : ℕ) (id : String) (v : ℕ) (x : Time) (es : List ExpiryEntry)
    → has_entry id v x es ≡ true
    → (has_entry id v x (left now n es) ≡ true)
      ⊎ (names id v (versioned (due now (take n es))) ≡ true)
has_entry-left now n id v x es h =
    let cut : (has_entry id v x (take n es) || has_entry id v x (drop n es)) ≡ true =
      sym (has_entry-append id v x (take n es) (drop n es))
      ∙ ap (has_entry id v x) (take-append-drop n es)
      ∙ h in
    ground (
      arith,
      has_entry-append id v x (drop n es) (deferred now (take n es)),
      has_entry_split now id v x (take n es),
      names-versioned id v x (due now (take n es)),
    )

-- The entries beyond the ones still to be examined are in the future.
abbrev pub Rest : Time → ℕ → List ExpiryEntry → Type 0
Rest now a es = (a ≤ length es) × All (λ e. now < e.expire_at) (drop a es)

pub left-Rest :
    (now : Time) (n a : ℕ) (es : List ExpiryEntry)
    → n ≤ a
    → Rest now a es
    → Rest now (a - n) (left now n es)
left-Rest now n a es le (fits, all) = (
  omega (arith, length-append (drop n es) (deferred now (take n es)), length-drop n es),
  rw (drop-append (a - n) (drop n es) (deferred now (take n es)) (omega (arith, length-drop n es)))
      (rw (drop-drop a n es le) (
        All-append _ (drop a es) (deferred now (take n es)) all (deferred-future now (take n es)))),
)

pub Rest-whole : (now : Time) (es : List ExpiryEntry) → Rest now (length es) es
Rest-whole now es = (omega arith, whole es)
  where
    whole : (fs : List ExpiryEntry) → All (λ e. now < e.expire_at) (drop (length fs) fs)
    whole [] = tt
    whole (f ∷ fs) = whole fs
