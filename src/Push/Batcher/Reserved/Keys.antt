-- ===== src/Push/Batcher/Reserved/Keys.antt =====
-- internal/promwrap/publisher.go: how often a key stands in a list of keys.
use zabbix_exporter.Prelude.{
  ℕ, ◌≡◌, ◌↔◌, refl, sym, subst, ap, ◌∙◌, inl, inr, String, true, false, not, List, [], ◌∷◌, ◌==◌,
  if◌then◌else◌, total, keep, arith, Bool-cases,
}
use text.Mathlib.TextEquality.{eq_iff}
use zabbix_exporter.Push.Queue.{PublishKey}
use zabbix_exporter.Push.Publisher.{same_key, has_key, forget}

abbrev pub one_key : PublishKey → PublishKey → ℕ
one_key k j = if same_key k j then 1 else 0

abbrev pub key_count : PublishKey → List PublishKey → ℕ
key_count k keys = total (one_key k) keys

key_of : String → ℕ → ℕ → PublishKey
key_of s g t = record { series_id = s; generation = g; timestamp_ms = t }

same_self : (a : PublishKey) → same_key a a ≡ true
unfolding same_key
same_self a = let named = (eq_iff a.series_id a.series_id).1 refl in ground (arith, named)

pub same_key_iff : (a b : PublishKey) → (same_key a b ≡ true) ↔ (a ≡ b)
unfolding same_key key_of
same_key_iff a b = (
  λ h.
      let named : a.series_id ≡ b.series_id = (eq_iff a.series_id b.series_id).0 (ground arith) in
      let generated : a.generation ≡ b.generation = ground arith in
      let stamped : a.timestamp_ms ≡ b.timestamp_ms = ground arith in
      ap (λ s. key_of s a.generation a.timestamp_ms) named
      ∙ ap (λ n. key_of b.series_id n a.timestamp_ms) generated
      ∙ ap (λ n. key_of b.series_id b.generation n) stamped,
  λ e. subst (λ x. same_key a x ≡ true) e (same_self a),
)

pub same_key_trans : (k j x : PublishKey) → same_key k j ≡ true → same_key k x ≡ same_key j x
same_key_trans k j x h = ap (λ y. same_key y x) ((same_key_iff k j).0 h)

key_count-keep :
    (k j : PublishKey) (keys : List PublishKey)
    → key_count k (keep (λ x. not (same_key j x)) keys)
      ≡ (if same_key k j then 0 else key_count k keys)
key_count-keep k j [] = ground arith
key_count-keep k j (x ∷ keys) = elim (Bool-cases (same_key k j)) [
  | inl t ↦ ground (arith, t, same_key_trans k j x t, key_count-keep k j keys)
  | inr f ↦ elim (Bool-cases (same_key j x)) [
    | inr n ↦ ground (arith, f, n, key_count-keep k j keys)
    | inl u ↦
        let other : same_key k x ≡ false = ap (same_key k) (sym ((same_key_iff j x).0 u)) ∙ f in
        ground (arith, f, u, other, key_count-keep k j keys)
  ]
]

pub key_count-forget :
    (k : PublishKey) (gone keys : List PublishKey)
    → key_count k (forget gone keys) ≡ (if key_count k gone == 0 then key_count k keys else 0)
unfolding forget
key_count-forget k [] keys = refl
key_count-forget k (j ∷ gone) keys =
    ground (
      arith,
      key_count-forget k gone (keep (λ x. not (same_key j x)) keys),
      key_count-keep k j keys,
    )

pub has_key-count :
    (k : PublishKey) (keys : List PublishKey) → has_key k keys ≡ not (key_count k keys == 0)
unfolding has_key
has_key-count k [] = refl
has_key-count k (j ∷ keys) = ground (arith, has_key-count k keys)

pub same_key_refl : (k : PublishKey) → same_key k k ≡ true
same_key_refl k = (same_key_iff k k).1 refl
