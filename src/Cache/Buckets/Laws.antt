-- ===== src/Cache/Buckets/Laws.antt =====
-- The map of buckets as a map, the keys as a rising list, and the keys in the order of time.
use zabbix_exporter.Prelude.{
  ℕ, ◌≤◌, ◌≡◌, refl, inl, inr, String, Bool, true, false, ◌&&◌, ◌||◌, List, [], ◌∷◌, ◌++◌, none,
  some, ◌==◌, if◌then◌else◌, ite, text_dec, All, arith, Bool-cases, subst, ==_iff,
}
use zabbix_exporter.Time.{Time}
use zabbix_exporter.Cache.Buckets.{
  ExpiryEntry, Buckets, bucket_key, bucket_at, set_bucket, remove_bucket, entries_at, push_key,
}

pub bucket_key_mono : (s t : Time) → s ≤ t → bucket_key s ≤ bucket_key t
unfolding bucket_key
bucket_key_mono s t h = ground arith

pub bucket_at-set :
    (j k : ℕ) (es : List ExpiryEntry) (b : Buckets)
    → bucket_at j (set_bucket k es b) ≡ (if k == j then some es else bucket_at j b)
unfolding bucket_at set_bucket
bucket_at-set j k es [] = refl
bucket_at-set j k es ((i, fs) ∷ b) = ground (arith, bucket_at-set j k es b)

pub bucket_at-remove :
    (j k : ℕ) (b : Buckets)
    → bucket_at j (remove_bucket k b) ≡ (if k == j then none else bucket_at j b)
unfolding bucket_at remove_bucket
bucket_at-remove j k [] = ground arith
bucket_at-remove j k ((i, fs) ∷ b) = ground (arith, bucket_at-remove j k b)

pub entries_at-set :
    (j k : ℕ) (es : List ExpiryEntry) (b : Buckets)
    → entries_at j (set_bucket k es b) ≡ (if k == j then es else entries_at j b)
entries_at-set j k es b = ground (arith, bucket_at-set j k es b)

pub entries_at-remove :
    (j k : ℕ) (b : Buckets)
    → entries_at j (remove_bucket k b) ≡ (if k == j then [] else entries_at j b)
entries_at-remove j k b = ground (arith, bucket_at-remove j k b)

unfoldable pub has_key : ℕ → List ℕ → Bool
has_key k [] = false
has_key k (j ∷ ks) = j == k || has_key k ks

-- The keys rise, so the first is the least.
abbrev pub Rising : ℕ → List ℕ → Type 0
Rising low [] = Unit
Rising low (k ∷ ks) = (low ≤ k) × Rising k ks

pub has_key-push : (j k : ℕ) (ks : List ℕ) → has_key j (push_key k ks) ≡ (k == j || has_key j ks)
unfolding has_key push_key
has_key-push j k [] = refl
has_key-push j k (i ∷ ks) = ground (arith, has_key-push j k ks)

pub push_key-Rising :
    (low k : ℕ) (ks : List ℕ) → low ≤ k → Rising low ks → Rising low (push_key k ks)
unfolding push_key
push_key-Rising low k [] h r = (h, tt)
push_key-Rising low k (i ∷ ks) h r = ground (arith, push_key-Rising i k ks)

pub Rising-le : (low k : ℕ) (ks : List ℕ) → Rising low ks → has_key k ks ≡ true → low ≤ k
unfolding has_key
Rising-le low k [] r e = cc
Rising-le low k (i ∷ ks) r e = ground (arith, Rising-le i k ks r.1)

pub Rising-lower : (low low' : ℕ) (ks : List ℕ) → low' ≤ low → Rising low ks → Rising low' ks
Rising-lower low low' [] h r = tt
Rising-lower low low' (k ∷ ks) h r = (omega arith, r.1)

-- The entries hold the named generation with its expiry time.
unfoldable pub has_entry : String → ℕ → Time → List ExpiryEntry → Bool
has_entry id v x [] = false
has_entry id v x (e ∷ es) =
    ite (text_dec e.item_id id) (e.value_version == v && e.expire_at == x) false
    || has_entry id v x es

pub has_entry-append :
    (id : String) (v : ℕ) (x : Time) (es fs : List ExpiryEntry)
    → has_entry id v x (es ++ fs) ≡ (has_entry id v x es || has_entry id v x fs)
unfolding has_entry
has_entry-append id v x [] fs = refl
has_entry-append id v x (e ∷ es) fs = ground (arith, has_entry-append id v x es fs)

pub has_entry_all {κ} :
    (P : Time → Type κ) (id : String) (v : ℕ) (x : Time) (es : List ExpiryEntry)
    → All (λ e. P e.expire_at) es
    → has_entry id v x es ≡ true
    → P x
unfolding has_entry
has_entry_all P id v x [] h e = cc
has_entry_all P id v x (f ∷ es) h e = elim (Bool-cases (f.expire_at == x)) [
  | inl t ↦ subst P ((==_iff f.expire_at x).0 t) h.0
  | inr t ↦ has_entry_all P id v x es h.1 (ground arith)
]
