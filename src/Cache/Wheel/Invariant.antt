-- ===== src/Cache/Wheel/Invariant.antt =====
-- The wheel's keys against its buckets, and the search for the first bucket that is due.
use zabbix_exporter.Prelude.{
  ℕ, ◌≤◌, ◌<◌, ◌≡◌, refl, sym, ◌∙◌, ◌⊎◌, inl, inr, true, List, [], ◌∷◌, ◌++◌, none, some, ◌==◌,
  length, All, arith, List-cases, Option-cases, Bool-cases, ==_iff, subst, All-append,
}
use zabbix_exporter.Cache.Buckets.{
  ExpiryEntry, Buckets, bucket_key, bucket_at, set_bucket, remove_bucket, entries_of, entries_at,
  push_key,
}
use zabbix_exporter.Cache.Buckets.Laws.{
  bucket_at-set, bucket_at-remove, entries_at-set, entries_at-remove, has_key, Rising, has_key-push,
  push_key-Rising, Rising-le, Rising-lower,
}
use zabbix_exporter.Cache.Wheel.{
  ExpiryWheel, first_due, register_entry, register_expiry, remove_empty, pop_key,
}

-- Every bucket has its key in the heap, and every entry stands in the bucket of
-- its minute.
pub record IsSynced (keys : List ℕ) (b : Buckets) : Type 0 where
  pub rising : Rising 0 keys
  pub synced : (k : ℕ) → (bucket_at k b ≡ none) ⊎ (has_key k keys ≡ true)
  pub keyed : (k : ℕ) → All (λ e. bucket_key e.expire_at ≡ k) (entries_at k b)

tail_key : (j k : ℕ) (ks : List ℕ) → has_key j (k ∷ ks) ≡ true → (k ≡ j) ⊎ (has_key j ks ≡ true)
unfolding has_key
tail_key j k ks m = ground arith

register_new :
    (keys : List ℕ) (b : Buckets) (e : ExpiryEntry)
    → IsSynced keys b
    → IsSynced
        (push_key (bucket_key e.expire_at) keys)
        (set_bucket (bucket_key e.expire_at) (e ∷ []) b)
register_new keys b e h =
    let key : ℕ = bucket_key e.expire_at in
    record {
      rising = push_key-Rising 0 key keys (omega arith) h.rising;
      synced =
          λ k. ground (arith, bucket_at-set k key (e ∷ []) b, has_key-push k key keys, h.synced k);
      keyed = λ k. ground (arith, entries_at-set k key (e ∷ []) b, h.keyed k);
    }

All-at :
    (keys : List ℕ) (b : Buckets) (k : ℕ) (es : List ExpiryEntry)
    → bucket_at k b ≡ some es
    → IsSynced keys b
    → All (λ e. bucket_key e.expire_at ≡ k) es
All-at keys b k es n h =
    let at : All (λ e. bucket_key e.expire_at ≡ k) (entries_of (bucket_at k b)) = h.keyed k in
    rw n at at

-- A bucket's entries replaced by others of the same minute.
pub set_bucket-IsSynced :
    (keys : List ℕ) (b : Buckets) (key : ℕ) (es : List ExpiryEntry)
    → has_key key keys ≡ true
    → All (λ e. bucket_key e.expire_at ≡ key) es
    → IsSynced keys b
    → IsSynced keys (set_bucket key es b)
set_bucket-IsSynced keys b key es old all h = record {
  rising = h.rising;
  synced = λ k. elim (Bool-cases (key == k)) [
    | inl t ↦ inr (let e : key ≡ k = (==_iff key k).0 t in subst (λ j. has_key j keys ≡ true) e old)
    | inr f ↦ rw (bucket_at-set k key es b) (rw f (h.synced k))
  ];
  keyed = λ k. elim (Bool-cases (key == k)) [
    | inl t ↦ rw (entries_at-set k key es b) (
        rw t (
          let e : key ≡ k = (==_iff key k).0 t in
          subst (λ j. All (λ e. bucket_key e.expire_at ≡ j) es) e all))
    | inr f ↦ rw (entries_at-set k key es b) (rw f (h.keyed k))
  ];
}

pub register_entry-IsSynced :
    (w : ExpiryWheel) (e : ExpiryEntry)
    → IsSynced w.keys w.buckets
    → IsSynced (register_entry w e).keys (register_entry w e).buckets
unfolding register_entry
register_entry-IsSynced w e h =
    let key : ℕ = bucket_key e.expire_at in
    elim (Option-cases (bucket_at key w.buckets)) [
      | inl n ↦ rw (n, register_entry) (register_new w.keys w.buckets e h)
      | inr (es, n) ↦
          rw (n, register_entry)
            (set_bucket-IsSynced w.keys w.buckets key (es ++ e ∷ []) (ground (arith, h.synced key))
              (All-append _ es (e ∷ []) (All-at w.keys w.buckets key es n h) (refl, tt)) h)
    ]

-- A registration keeps the wheel's keys and buckets in agreement.
pub register_expiry-IsSynced :
    (w : ExpiryWheel) (es : List ExpiryEntry)
    → IsSynced w.keys w.buckets
    → IsSynced (register_expiry w es).keys (register_expiry w es).buckets
unfolding register_expiry
register_expiry-IsSynced w [] h = h
register_expiry-IsSynced w (e ∷ es) h =
    register_expiry-IsSynced (register_entry w e) es (register_entry-IsSynced w e h)

pub remove_bucket-IsSynced :
    (low : ℕ) (keys keys' : List ℕ) (b : Buckets) (k : ℕ)
    → Rising 0 keys'
    → ((j : ℕ) → has_key j keys ≡ true → (k ≡ j) ⊎ (has_key j keys' ≡ true))
    → IsSynced keys b
    → IsSynced keys' (remove_bucket k b)
remove_bucket-IsSynced low keys keys' b k rising sub h = record {
  rising = rising;
  synced = λ j. elim (Bool-cases (k == j)) [
    | inl t ↦ inl (rw (bucket_at-remove j k b) (rw t refl))
    | inr f ↦ elim (h.synced j) [
      | inl n ↦ inl (rw (bucket_at-remove j k b) (rw f n))
      | inr m ↦ elim (sub j m) [ inl e ↦ absurd (ground arith) | inr g ↦ inr g ]
    ]
  ];
  keyed = λ j. elim (Bool-cases (k == j)) [
    | inl t ↦ rw (entries_at-remove j k b) (rw t tt)
    | inr f ↦ rw (entries_at-remove j k b) (rw f (h.keyed j))
  ];
}

-- The search drops empty buckets only.
pub entries_at-first_due :
    (current j : ℕ) (ks : List ℕ) (b : Buckets)
    → entries_at j (first_due current ks b).buckets ≡ entries_at j b
unfolding first_due
entries_at-first_due current j [] b = refl
entries_at-first_due current j (k ∷ ks) b = elim (List-cases (entries_at k b)) [
  | inl n ↦ rw (n, first_due) (entries_at-first_due current j ks (remove_bucket k b) ∙ same n)
  | inr (e, es, n) ↦ rw (n, first_due) refl
]
  where
    same : entries_at k b ≡ [] → entries_at j (remove_bucket k b) ≡ entries_at j b
    same n = ground (arith, entries_at-remove j k b)

pub first_due-IsSynced :
    (current : ℕ) (ks : List ℕ) (b : Buckets)
    → IsSynced ks b
    → IsSynced (first_due current ks b).keys (first_due current ks b).buckets
unfolding first_due
first_due-IsSynced current [] b h = h
first_due-IsSynced current (k ∷ ks) b h = elim (List-cases (entries_at k b)) [
  | inl n ↦
      rw (n, first_due)
        (first_due-IsSynced current ks (remove_bucket k b) (
          remove_bucket-IsSynced 0 (k ∷ ks) ks b k (Rising-lower k 0 ks (omega arith) h.rising.1)
            (λ j m. tail_key j k ks m) h))
  | inr (e, es, n) ↦ rw (n, first_due) h
]

no_keys : (k : ℕ) → has_key k [] ≡ true → ⊥
unfolding has_key
no_keys k e = cc

key_ge : (k j : ℕ) (ks : List ℕ) → Rising 0 (k ∷ ks) → has_key j (k ∷ ks) ≡ true → k ≤ j
unfolding has_key
key_ge k j ks r e = ground (arith, Rising-le k j ks r.1)

removed_empty :
    (k j : ℕ) (b : Buckets)
    → entries_at k b ≡ []
    → entries_at j (remove_bucket k b) ≡ entries_at j b
removed_empty k j b n = ground (arith, entries_at-remove j k b)

-- Keys below the first are those of no bucket.
below_first :
    (k j : ℕ) (ks : List ℕ) (b : Buckets) → IsSynced (k ∷ ks) b → j < k → entries_at j b ≡ []
below_first k j ks b h lt = elim (h.synced j) [
  | inl n ↦ rw n refl
  | inr m ↦ absurd (omega (arith, key_ge k j ks h.rising m))
]

dropped_IsSynced :
    (k : ℕ) (ks : List ℕ) (b : Buckets) → IsSynced (k ∷ ks) b → IsSynced ks (remove_bucket k b)
dropped_IsSynced k ks b h =
    remove_bucket-IsSynced 0 (k ∷ ks) ks b k (Rising-lower k 0 ks (omega arith) h.rising.1)
      (λ j m. tail_key j k ks m) h

-- If the search finds nothing, no bucket up to the current minute has an entry.
pub first_due-none :
    (current : ℕ) (ks : List ℕ) (b : Buckets)
    → IsSynced ks b
    → (first_due current ks b).found ≡ none
    → (j : ℕ) → j ≤ current
    → entries_at j b ≡ []
unfolding first_due
first_due-none current [] b h e j le = elim (h.synced j) [
  | inl n ↦ rw n refl
  | inr m ↦ absurd (no_keys j m)
]
first_due-none current (k ∷ ks) b h e j le = elim (List-cases (entries_at k b)) [
  | inl n ↦
      sym (removed_empty k j b n)
      ∙ first_due-none current ks (remove_bucket k b) (dropped_IsSynced k ks b h)
          (rw (n, first_due) at e) j le
  | inr (x, xs, n) ↦ below_first k j ks b h (let e' = rw (n, first_due) at e in ground arith)
]

-- What it finds is the entries of the least minute that has any, and that minute is due.
pub first_due-some :
    (current : ℕ) (ks : List ℕ) (b : Buckets) (key : ℕ) (es : List ExpiryEntry)
    → IsSynced ks b
    → (first_due current ks b).found ≡ some (key, es)
    → (key ≤ current)
      × (es ≡ entries_at key b)
      × (0 < length es)
      × ((j : ℕ) → j < key → entries_at j b ≡ [])
unfolding first_due
first_due-some current [] b key es h e = cc
first_due-some current (k ∷ ks) b key es h e = elim (List-cases (entries_at k b)) [
  | inl n ↦
      let r =
        first_due-some current ks (remove_bucket k b) key es (dropped_IsSynced k ks b h)
          (rw (n, first_due) at e) in
      (r.0, r.1 ∙ removed_empty k key b n, r.2, λ j lt. sym (removed_empty k j b n) ∙ r.3 j lt)
  | inr (x, xs, n) ↦
      let e' = rw (n, first_due) at e in
      (ground arith, ground arith, ground arith, λ j lt. below_first k j ks b h (ground arith))
]

pop_key_sub :
    (k j : ℕ) (ks : List ℕ) → has_key j ks ≡ true → (k ≡ j) ⊎ (has_key j (pop_key k ks) ≡ true)
unfolding has_key pop_key
pop_key_sub k j [] m = cc
pop_key_sub k j (i ∷ ks) m = ground arith

pop_key-Rising : (low k : ℕ) (ks : List ℕ) → Rising low ks → Rising low (pop_key k ks)
unfolding pop_key
pop_key-Rising low k [] r = r
pop_key-Rising low k (i ∷ ks) r = ground (arith, Rising-lower i low ks r.0)

pub remove_empty-IsSynced :
    (k : ℕ) (w : ExpiryWheel)
    → IsSynced w.keys w.buckets
    → IsSynced (remove_empty k w).keys (remove_empty k w).buckets
unfolding remove_empty
remove_empty-IsSynced k w h = elim (List-cases (entries_at k w.buckets)) [
  | inl n ↦
      rw (n, remove_empty)
        (remove_bucket-IsSynced 0 w.keys (pop_key k w.keys) w.buckets k
          (pop_key-Rising 0 k w.keys h.rising) (λ j m. pop_key_sub k j w.keys m) h)
  | inr (x, xs, n) ↦ rw (n, remove_empty) h
]

pub entries_at-remove_empty :
    (k j : ℕ) (w : ExpiryWheel) → entries_at j (remove_empty k w).buckets ≡ entries_at j w.buckets
unfolding remove_empty
entries_at-remove_empty k j w = elim (List-cases (entries_at k w.buckets)) [
  | inl n ↦ rw (n, remove_empty) (removed_empty k j w.buckets n)
  | inr (x, xs, n) ↦ rw (n, remove_empty) refl
]
