-- ===== src/Cache/Buckets.antt =====
-- internal/cache/expiry_wheel.go: the minute keys, the map of buckets and the heap of keys.
-- `container/heap` keeps the least key in front; the heap is modelled by the rising list of keys.
pub mod Laws
use zabbix_exporter.Prelude.{
  ℕ, ◌+◌, ◌-◌, ◌/◌, String, Bool, List, [], ◌∷◌, Option, none, some, ltb, leb, ◌==◌, if◌then◌else◌,
}
use zabbix_exporter.Time.{Time, unix}

pub record ExpiryEntry : Type 0 where
  pub item_id : String
  pub value_version : ℕ
  pub expire_at : Time

-- The Unix epoch, in seconds and in minutes from the zero time.
abbrev pub epoch_seconds : ℕ
epoch_seconds = 62_135_596_800

abbrev pub epoch_minutes : ℕ
epoch_minutes = 1_035_593_280

-- `at.Unix() / 60`, counted in minutes from the zero time: Go's division rounds towards the epoch.
unfoldable pub bucket_key : Time → ℕ
bucket_key at =
    if leb epoch_seconds (unix at)
    then epoch_minutes + (unix at - epoch_seconds) / 60
    else epoch_minutes - (epoch_seconds - unix at) / 60

abbrev pub Buckets : Type 0
Buckets = List (ℕ × List ExpiryEntry)

-- The bucket of a key, if the map has one.
unfoldable pub bucket_at : ℕ → Buckets → Option (List ExpiryEntry)
bucket_at k [] = none
bucket_at k ((j, es) ∷ b) = if j == k then some es else bucket_at k b

unfoldable pub set_bucket : ℕ → List ExpiryEntry → Buckets → Buckets
set_bucket k es [] = (k, es) ∷ []
set_bucket k es ((j, fs) ∷ b) = if j == k then (k, es) ∷ b else (j, fs) ∷ set_bucket k es b

unfoldable pub remove_bucket : ℕ → Buckets → Buckets
remove_bucket k [] = []
remove_bucket k ((j, fs) ∷ b) = if j == k then remove_bucket k b else (j, fs) ∷ remove_bucket k b

-- The entries of a key; a missing bucket has none.
abbrev pub entries_of : Option (List ExpiryEntry) → List ExpiryEntry
entries_of none = []
entries_of (some es) = es

abbrev pub entries_at : ℕ → Buckets → List ExpiryEntry
entries_at k b = entries_of (bucket_at k b)

-- heap.Push.
unfoldable pub push_key : ℕ → List ℕ → List ℕ
push_key k [] = k ∷ []
push_key k (j ∷ ks) = if ltb j k then j ∷ push_key k ks else k ∷ j ∷ ks
