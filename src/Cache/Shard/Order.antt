-- ===== src/Cache/Shard/Order.antt =====
-- The scan order of a shard, against its live values.
use zabbix_exporter.Prelude.{
  ℕ, suc, ◌+◌, ◌≤◌, ◌<◌, ◌≡◌, refl, ◌∙◌, String, Bool, true, List, [], ◌∷◌, ◌++◌, none, some, ◌==◌,
  if◌then◌else◌, ite, text_dec, length, keep, Map, lookup, put, erase, Distinct, arith, lookup-put,
  lookup-erase, Bool-cases, inl, inr,
}
use zabbix_exporter.Cache.State.{ValueState}
use zabbix_exporter.Cache.Shard.{ScanKey, is_live}

-- Strictly rising sequences, all above `low`.
abbrev pub Ascending : ℕ → List ScanKey → Type 0
Ascending low [] = Unit
Ascending low (k ∷ ks) = (low < k.sequence) × Ascending k.sequence ks

-- All sequences are at most `top`.
abbrev pub Below : ℕ → List ScanKey → Type 0
Below top [] = Unit
Below top (k ∷ ks) = (k.sequence ≤ top) × Below top ks

unfoldable pub count_key : ℕ → String → List ScanKey → ℕ
count_key n id [] = 0
count_key n id (k ∷ ks) =
    ite (text_dec k.item_id id)
      (if k.sequence == n then suc (count_key n id ks) else count_key n id ks) (count_key n id ks)

-- Every value of the map has exactly one key in the order, and no item stands twice in the map.
abbrev pub Scanned : List ScanKey → Map ValueState → Type 0
Scanned order [] = Unit
Scanned order ((id, v) ∷ m) =
    (count_key v.scan_sequence id order ≡ 1)
    × (v.item_id ≡ id)
    × (lookup id m ≡ none)
    × Scanned order m

pub Ascending-snoc :
    (low : ℕ) (ks : List ScanKey) (top : ℕ) (k : ScanKey)
    → Ascending low ks
    → Below top ks
    → low < k.sequence
    → top < k.sequence
    → Ascending low (ks ++ k ∷ [])
Ascending-snoc low [] top k a b h g = (h, tt)
Ascending-snoc low (x ∷ ks) top k a b h g =
    (a.0, Ascending-snoc x.sequence ks top k a.1 b.1 (omega arith) g)

pub Below-mono : (ks : List ScanKey) (top top' : ℕ) → top ≤ top' → Below top ks → Below top' ks
Below-mono [] top top' h b = tt
Below-mono (k ∷ ks) top top' h b = (omega arith, Below-mono ks top top' h b.1)

pub Below-snoc :
    (ks : List ScanKey) (top : ℕ) (k : ScanKey)
    → Below top ks
    → k.sequence ≤ top
    → Below top (ks ++ k ∷ [])
Below-snoc [] top k b h = (h, tt)
Below-snoc (x ∷ ks) top k b h = (b.0, Below-snoc ks top k b.1 h)

pub Ascending-lower :
    (ks : List ScanKey) (low low' : ℕ) → low' ≤ low → Ascending low ks → Ascending low' ks
Ascending-lower [] low low' h a = tt
Ascending-lower (k ∷ ks) low low' h a = (omega arith, a.1)

pub keep-Ascending :
    (p : ScanKey → Bool) (low : ℕ) (ks : List ScanKey)
    → Ascending low ks
    → Ascending low (keep p ks)
keep-Ascending p low [] a = tt
keep-Ascending p low (k ∷ ks) a = elim (Bool-cases (p k)) [
  | inl t ↦ rw t (a.0, keep-Ascending p k.sequence ks a.1)
  | inr f ↦ rw f (
      Ascending-lower (keep p ks) k.sequence low (omega arith) (keep-Ascending p k.sequence ks a.1))
]

pub keep-Below :
    (p : ScanKey → Bool) (top : ℕ) (ks : List ScanKey) → Below top ks → Below top (keep p ks)
keep-Below p top [] b = tt
keep-Below p top (k ∷ ks) b = ground (arith, keep-Below p top ks b.1)

pub count_key-above :
    (n : ℕ) (id : String) (top : ℕ) (ks : List ScanKey)
    → Below top ks
    → top < n
    → count_key n id ks ≡ 0
unfolding count_key
count_key-above n id top [] b h = refl
count_key-above n id top (k ∷ ks) b h = ground (arith, count_key-above n id top ks b.1)

pub count_key-append :
    (n : ℕ) (id : String) (ks ls : List ScanKey)
    → count_key n id (ks ++ ls) ≡ count_key n id ks + count_key n id ls
unfolding count_key
count_key-append n id [] ls = omega arith
count_key-append n id (k ∷ ks) ls = ground (arith, count_key-append n id ks ls)

-- A key that passes the test is counted as before.
pub count_key-keep :
    (p : ScanKey → Bool) (n : ℕ) (id : String) (ks : List ScanKey)
    → p (record { sequence = n; item_id = id }) ≡ true
    → count_key n id (keep p ks) ≡ count_key n id ks
unfolding count_key
count_key-keep p n id [] h = refl
count_key-keep p n id (k ∷ ks) h = elim (text_dec k.item_id id) [
  | yes e ↦ elim (Bool-cases (k.sequence == n)) [
    | inl g ↦
        let same : k ≡ record { sequence = n; item_id = id } = ground (arith) in
        let hit : p k ≡ true = rw same h in rw hit (ground (arith, count_key-keep p n id ks))
    | inr g ↦ ground (arith, count_key-keep p n id ks)
  ]
  | no e ↦ ground (arith, count_key-keep p n id ks)
]

pub put-Scanned :
    (order : List ScanKey) (id : String) (v : ValueState) (m : Map ValueState)
    → count_key v.scan_sequence id order ≡ 1
    → v.item_id ≡ id
    → Scanned order m
    → Scanned order (put id v m)
unfolding put lookup
put-Scanned order id v [] h e s = (h, e, refl, tt)
put-Scanned order id v ((j, w) ∷ m) h e s =
    ground (arith, put-Scanned order id v m h e s.3, lookup-put id j v m)

pub erase-Scanned :
    (order : List ScanKey) (id : String) (m : Map ValueState)
    → Scanned order m
    → Scanned order (erase id m)
unfolding erase
erase-Scanned order id [] s = tt
erase-Scanned order id ((j, w) ∷ m) s =
    ground (arith, erase-Scanned order id m s.3, lookup-erase id j m)

-- A new key at the end leaves the other items' keys counted once.
pub snoc-Scanned :
    (order : List ScanKey) (k : ScanKey) (m : Map ValueState)
    → lookup k.item_id m ≡ none
    → Scanned order m
    → Scanned (order ++ k ∷ []) m
unfolding lookup count_key
snoc-Scanned order k [] h s = tt
snoc-Scanned order k ((j, w) ∷ m) h s =
    ground (arith, snoc-Scanned order k m, count_key-append w.scan_sequence j order (k ∷ []))

keep_none : (order : List ScanKey) → length (keep (is_live []) order) ≡ 0
unfolding is_live lookup
keep_none [] = refl
keep_none (k ∷ ks) = keep_none ks

live_cons :
    (order : List ScanKey) (id : String) (v : ValueState) (m : Map ValueState)
    → lookup id m ≡ none
    → length (keep (is_live ((id, v) ∷ m)) order)
      ≡ count_key v.scan_sequence id order + length (keep (is_live m) order)
unfolding is_live lookup count_key
live_cons [] id v m h = omega arith
live_cons (k ∷ ks) id v m h = ground (arith, live_cons ks id v m h)

-- As many keys of the order are live as the map has values.
pub length-live :
    (order : List ScanKey) (m : Map ValueState)
    → Scanned order m
    → length (keep (is_live m) order) ≡ length m
length-live order [] s = keep_none order
length-live order ((id, v) ∷ m) s =
    omega (arith, live_cons order id v m s.2, length-live order m s.3)

sub_tail :
    (M m : Map ValueState) (id : String) (v : ValueState)
    → lookup id m ≡ none
    → ((j : String) (w : ValueState) → lookup j ((id, v) ∷ m) ≡ some w → lookup j M ≡ some w)
    → (j : String) (w : ValueState) → lookup j m ≡ some w
    → lookup j M ≡ some w
unfolding lookup
sub_tail M m id v d h j w e = ground (arith, h j w)

live_sub :
    (order : List ScanKey) (M m : Map ValueState)
    → ((j : String) (w : ValueState) → lookup j m ≡ some w → lookup j M ≡ some w)
    → Scanned order m
    → Scanned (keep (is_live M) order) m
unfolding lookup is_live
live_sub order M [] h s = tt
live_sub order M ((id, v) ∷ m) h s =
    let here : lookup id M ≡ some v = h id v (ground arith) in
    let rest = live_sub order M m (sub_tail M m id v s.2 h) s.3 in
    (count_key-keep (is_live M) v.scan_sequence id order (ground arith) ∙ s.0, s.1, s.2, rest)

-- Dropping the keys that are not live keeps each value's key.
pub live-Scanned :
    (order : List ScanKey) (m : Map ValueState)
    → Scanned order m
    → Scanned (keep (is_live m) order) m
live-Scanned order m s = live_sub order m m (λ j w e. e) s

pub Scanned-Distinct : (order : List ScanKey) (m : Map ValueState) → Scanned order m → Distinct m
Scanned-Distinct order [] s = tt
Scanned-Distinct order ((id, v) ∷ m) s = (s.2, Scanned-Distinct order m s.3)

pub Scanned-lookup :
    (order : List ScanKey) (m : Map ValueState) (id : String) (v : ValueState)
    → Scanned order m
    → lookup id m ≡ some v
    → (count_key v.scan_sequence id order ≡ 1) × (v.item_id ≡ id)
unfolding lookup
Scanned-lookup order [] id v s e = cc
Scanned-lookup order ((j, w) ∷ m) id v s e = ground (arith, Scanned-lookup order m id v s.3)
