-- ===== src/Tests/Stored.antt =====
-- The theorem on the metadata store, at an item whose name changes.
use zabbix_exporter.Prelude.{
  ◌+◌, ◌%◌, ◌≡◌, ◌⊎◌, refl, true, false, [], ◌∷◌, some, lookup, text_dec, contains,
}
use zabbix_exporter.Time.{int64_mod}
use zabbix_exporter.Metadata.Types.{MetadataSnapshot, ItemMetadata}
use zabbix_exporter.Metadata.Store.{item_definitions_equal, apply_snapshot}
use zabbix_exporter.Metadata.Store.Versions.{has_changed, apply_snapshot_versions}
use zabbix_exporter.Tests.Applied.{item_a, snapshot}
use zabbix_exporter.Tests.Scheduled.{noon}

abbrev renamed : ItemMetadata
renamed = record item_a { name = "m" }

abbrev candidate : MetadataSnapshot
candidate = record snapshot { items = ("a", renamed) ∷ [] }

renamed_in : lookup "a" candidate.items ≡ some renamed
unfolding lookup text_dec
renamed_in = refl

abbrev after : MetadataSnapshot
after = (apply_snapshot (λ a b. true) (λ hosts. []) noon (some candidate) snapshot).0

apply_snapshot_versions_example :
    (w : ItemMetadata) × (lookup "a" after.items ≡ some w)
    × ((((p : ItemMetadata) × (lookup "a" snapshot.items ≡ some p)
            × ((item_definitions_equal p renamed ≡ true) × (w.version ≡ p.version)))
          ⊎ (((p : ItemMetadata)
                → lookup "a" snapshot.items ≡ some p
                → item_definitions_equal p renamed ≡ false)
              × (w.version ≡ (snapshot.version + 1) % int64_mod)))
        × (contains "a"
              (apply_snapshot
                (λ a b. true)
                (λ hosts. [])
                noon
                (some candidate)
                snapshot).1.changed_items
            ≡ has_changed item_definitions_equal (lookup "a" snapshot.items) (some w)))
unfolding lookup text_dec
apply_snapshot_versions_example =
    apply_snapshot_versions (λ a b. true) (λ hosts. []) noon candidate snapshot "a" renamed
      renamed_in (refl, (refl, tt))
