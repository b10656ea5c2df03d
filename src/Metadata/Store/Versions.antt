-- ===== src/Metadata/Store/Versions.antt =====
-- internal/metadata/cache.go: the versions of the published definitions, and what the diff names.
use zabbix_exporter.Prelude.{
  ℕ, ◌+◌, ◌%◌, ◌≡◌, ◌⊎◌, refl, sym, subst, ap, ◌∙◌, inl, inr, String, Bool, true, false, List, [],
  ◌∷◌, Option, none, some, Map, lookup, contains, Distinct, sort_texts, insert_text, Bool-cases,
  ◌==◌, if◌then◌else◌, text_dec, if_pos, ite, arith,
}
use mathlib.Core.Option.{some-injective}
use zabbix_exporter.Time.{Time, int64_mod}
use zabbix_exporter.Metadata.Types.{MetadataSnapshot, HostMetadata, ItemMetadata}
use zabbix_exporter.Metadata.Store.{
  publish, publish_map, item_definitions_equal, clone_snapshot, diff_snapshots, apply_snapshot,
  changed_keys,
}

module _ {V : Type 0} (equal : V → V → Bool) (clone : V → V) (version_of : V → ℕ)
    (keep_version : ℕ → V → V) where
  lookup-publish_map :
      (current source : Map V) (id : String) (v : V)
      → lookup id source ≡ some v
      → lookup id (publish_map equal clone version_of keep_version current source)
        ≡ some (publish equal clone version_of keep_version (lookup id current) v)
  unfolding publish_map lookup
  lookup-publish_map current [] id v h = absurd cc
  lookup-publish_map current ((j, w) ∷ source) id v h = elim (text_dec j id) [
    | yes e ↦
        let found : w ≡ v = ground arith in
        if_pos (text_dec j id) e _ _
        ∙ ap (λ k. some (publish equal clone version_of keep_version (lookup k current) w)) e
        ∙ ap (λ x. some (publish equal clone version_of keep_version (lookup id current) x)) found
    | no n ↦ ground (arith, lookup-publish_map current source id v)
  ]

contains-insert_text :
    (k s : String) (ts : List String)
    → contains k (insert_text s ts) ≡ ite (text_dec s k) true (contains k ts)
unfolding insert_text contains
contains-insert_text k s [] = refl
contains-insert_text k s (t ∷ ts) = ground (arith, contains-insert_text k s ts)

contains-sort_texts : (k : String) (ts : List String) → contains k (sort_texts ts) ≡ contains k ts
unfolding sort_texts contains
contains-sort_texts k [] = refl
contains-sort_texts k (t ∷ ts) =
    ground (arith, contains-insert_text k t (sort_texts ts), contains-sort_texts k ts)

-- What is true of an id whose definitions, if any, are these.
abbrev pub has_changed : {V : Type 0} → (V → V → Bool) → Option V → Option V → Bool
has_changed equal none after = false
has_changed equal (some v) none = false
has_changed equal (some v) (some w) = if equal v w then false else true

contains-changed_keys :
    {V : Type 0} (equal : V → V → Bool) (old next : Map V) (id : String)
    → Distinct old
    → contains id (changed_keys equal old next) ≡ has_changed equal (lookup id old) (lookup id next)
unfolding changed_keys lookup contains
contains-changed_keys equal [] next id d = refl
contains-changed_keys equal ((j, v) ∷ old) next id d =
    let rest = contains-changed_keys equal old next id d.1 in
    elim (text_dec j id) [
      | yes e ↦
          let gone : lookup id old ≡ none = ap (λ k. lookup k old) (sym e) ∙ d.0 in
          let same : lookup j next ≡ lookup id next = ap (λ k. lookup k next) e in
          ground (arith, rest, gone, same)
      | no n ↦ ground (arith, rest)
    ]

publish_cases :
    (previous : Option ItemMetadata) (version : ℕ) (created_at : Time) (v : ItemMetadata)
    → let w : ItemMetadata =
        publish item_definitions_equal
          (λ i. record i { refreshed_at = created_at; version = version })
          (λ i. i.version)
          (λ n i. record i { version = n })
          previous
          v in
      (((p : ItemMetadata) × (previous ≡ some p)
          × ((item_definitions_equal p v ≡ true) × (w.version ≡ p.version)))
        ⊎ (((p : ItemMetadata) → previous ≡ some p → item_definitions_equal p v ≡ false)
            × (w.version ≡ version)))
unfolding publish item_definitions_equal
publish_cases none version created_at v = inr (λ p h. absurd cc, refl)
publish_cases (some p) version created_at v = elim (Bool-cases (item_definitions_equal p v)) [
  | inl t ↦ inl (
    p,
    refl,
    (
      t,
      ap
          (λ b.
            (if b
              then record v { refreshed_at = created_at; version = p.version }
              else record v { refreshed_at = created_at; version = version }).version)
          t,
    ),
  )
  | inr f ↦ inr (
    λ q h. subst (λ x. item_definitions_equal x v ≡ false) (some-injective p q h) f,
    ap
        (λ b.
          (if b
            then record v { refreshed_at = created_at; version = p.version }
            else record v { refreshed_at = created_at; version = version }).version)
        f,
  )
]

-- An item of an applied snapshot is published. If the store had an equal definition of it, it has
-- that definition's version, and if not, the version of the new snapshot. The diff names the item as
-- changed if and only if the store had it with another definition, where no item stands twice in
-- the store.
pub apply_snapshot_versions :
    (same_inventory : HostMetadata → HostMetadata → Bool)
    (host_order : Map HostMetadata → List String) (now : Time) (next current : MetadataSnapshot)
    (id : String) (v : ItemMetadata)
    → lookup id next.items ≡ some v
    → Distinct current.items
    → (w : ItemMetadata) × (lookup id
          (apply_snapshot same_inventory host_order now (some next) current).0.items
        ≡ some w)
      × ((((p : ItemMetadata) × (lookup id current.items ≡ some p)
              × ((item_definitions_equal p v ≡ true) × (w.version ≡ p.version)))
            ⊎ (((p : ItemMetadata)
                  → lookup id current.items ≡ some p
                  → item_definitions_equal p v ≡ false)
                × (w.version ≡ (current.version + 1) % int64_mod)))
          × (contains id
                (apply_snapshot same_inventory host_order now (some next) current).1.changed_items
              ≡ has_changed item_definitions_equal (lookup id current.items) (some w)))
unfolding apply_snapshot clone_snapshot diff_snapshots
apply_snapshot_versions same_inventory host_order now next current id v h d =
    let version : ℕ = (current.version + 1) % int64_mod in
    let created_at : Time = if next.created_at == 0 then now else next.created_at in
    let found =
      lookup-publish_map item_definitions_equal
        (λ i. record i { refreshed_at = created_at; version = version }) (λ i. i.version)
        (λ n i. record i { version = n }) current.items next.items id v h in
    (
      _,
      found,
      (
        publish_cases (lookup id current.items) version created_at v,
        contains-sort_texts id _
            ∙ contains-changed_keys item_definitions_equal current.items _ id d
            ∙ ap (has_changed item_definitions_equal (lookup id current.items)) found,
      ),
    )
