-- ===== src/Metadata/Store.antt =====
-- internal/metadata/cache.go: the store, which publishes snapshots and gives a definition a new
-- version only if it changed. `same_inventory` is reflect.DeepEqual of the raw inventories, and
-- `host_order` sorts the ids of hosts; a nil pointer in a map is a missing key.
pub mod Versions
use zabbix_exporter.Prelude.{
  ℕ, ◌+◌, ◌%◌, String, Bool, true, false, not, ◌&&◌, List, [], ◌∷◌, Option, none, some, Map, lookup,
  text_eq, ◌==◌, if◌then◌else◌, length, sort_texts,
}
use zabbix_exporter.Time.{Time, int64_mod}
use zabbix_exporter.Metadata.Types.{
  MetadataSnapshot, HostMetadata, ItemMetadata, CollectionGroup, Label, DelayParseStatus,
}

pub record MetadataDiff : Type 0 where
  pub old_version : ℕ
  pub new_version : ℕ
  pub added_hosts : List String
  pub removed_hosts : List String
  pub changed_hosts : List String
  pub added_items : List String
  pub removed_items : List String
  pub changed_items : List String
  pub added_groups : List String
  pub removed_groups : List String
  pub changed_groups : List String

abbrev pub empty_snapshot : MetadataSnapshot
empty_snapshot = record {
  version = 0;
  created_at = 0;
  hosts = [];
  host_ids = [];
  items = [];
  host_items = [];
  groups = [];
  item_groups = [];
}

unfoldable pub labels_equal : List Label → List Label → Bool
labels_equal [] [] = true
labels_equal [] (b ∷ bs) = false
labels_equal (a ∷ rest) [] = false
labels_equal (a ∷ rest) (b ∷ bs) =
    text_eq a.name b.name && text_eq a.value b.value && labels_equal rest bs

unfoldable pub ids_equal : List String → List String → Bool
ids_equal [] [] = true
ids_equal [] (t ∷ ts) = false
ids_equal (s ∷ ss) [] = false
ids_equal (s ∷ ss) (t ∷ ts) = text_eq s t && ids_equal ss ts

-- Maps are equal if they have as many keys, and each key of one has its text in the other.
unfoldable pub fields_in : Map String → Map String → Bool
fields_in [] other = true
fields_in ((k, v) ∷ fields) other =
    elim (lookup k other) [ none ↦ false | some w ↦ text_eq v w ] && fields_in fields other

unfoldable pub fields_equal : Map String → Map String → Bool
unfolding fields_in
fields_equal a b = length a == length b && fields_in a b

abbrev pub delay_state_code : DelayParseStatus → ℕ
delay_state_code DelayParseStatus.parsed = 0
delay_state_code DelayParseStatus.missing = 1
delay_state_code DelayParseStatus.invalid = 2
delay_state_code DelayParseStatus.flexible = 3
delay_state_code DelayParseStatus.scheduled = 4
delay_state_code DelayParseStatus.macro = 5

abbrev pub bools_equal : Bool → Bool → Bool
bools_equal true b = b
bools_equal false b = not b

unfoldable pub item_definitions_equal : ItemMetadata → ItemMetadata → Bool
unfolding labels_equal
item_definitions_equal a b =
    text_eq a.item_id b.item_id
    && text_eq a.host_id b.host_id
    && text_eq a.key b.key
    && text_eq a.name b.name
    && text_eq a.value_type b.value_type
    && text_eq a.raw_delay b.raw_delay
    && a.delay == b.delay
    && delay_state_code a.delay_parse_state == delay_state_code b.delay_parse_state
    && text_eq a.status b.status
    && text_eq a.state b.state
    && bools_equal a.enabled b.enabled
    && text_eq a.metric_name b.metric_name
    && labels_equal a.labels b.labels

unfoldable pub group_definitions_equal : CollectionGroup → CollectionGroup → Bool
unfolding ids_equal
group_definitions_equal a b =
    text_eq a.id b.id
    && text_eq a.host_id b.host_id
    && text_eq a.value_type b.value_type
    && a.delay == b.delay
    && ids_equal a.item_ids b.item_ids

-- The published definitions of a map: each with the new version, or with the one that an equal
-- definition had. `clone` copies with the new version, `version_of` and `keep_version` read and set it.
module _ {V : Type 0} (equal : V → V → Bool) (clone : V → V) (version_of : V → ℕ)
    (keep_version : ℕ → V → V) where
  unfoldable pub publish : Option V → V → V
  publish none v = clone v
  publish (some previous) v =
      if equal previous (clone v) then keep_version (version_of previous) (clone v) else clone v

  unfoldable pub publish_map : Map V → Map V → Map V
  unfolding publish
  publish_map current [] = []
  publish_map current ((id, v) ∷ source) =
      (id, publish (lookup id current) v) ∷ publish_map current source

-- The keys of `old` that `next` has not, or has with another definition, and those new in `next`.
module _ {V : Type 0} (equal : V → V → Bool) where
  unfoldable pub removed_keys : Map V → Map V → List String
  removed_keys [] next = []
  removed_keys ((id, v) ∷ old) next = elim (lookup id next) [
    | none ↦ id ∷ removed_keys old next
    | some w ↦ removed_keys old next
  ]

  unfoldable pub changed_keys : Map V → Map V → List String
  changed_keys [] next = []
  changed_keys ((id, v) ∷ old) next = elim (lookup id next) [
    | none ↦ changed_keys old next
    | some w ↦ if equal v w then changed_keys old next else id ∷ changed_keys old next
  ]

module _ (same_inventory : HostMetadata → HostMetadata → Bool)
    (host_order : Map HostMetadata → List String) where
  unfoldable pub host_definitions_equal : HostMetadata → HostMetadata → Bool
  unfolding fields_equal labels_equal
  host_definitions_equal a b =
      text_eq a.host_id b.host_id
      && text_eq a.host_name b.host_name
      && text_eq a.display_name b.display_name
      && text_eq a.host_ip b.host_ip
      && same_inventory a b
      && fields_equal a.inventory_fields b.inventory_fields
      && labels_equal a.labels b.labels

  unfoldable pub clone_snapshot : MetadataSnapshot → MetadataSnapshot → ℕ → Time → MetadataSnapshot
  unfolding publish_map host_definitions_equal item_definitions_equal group_definitions_equal
  clone_snapshot source current version created_at =
      let hosts : Map HostMetadata =
        publish_map host_definitions_equal
          (λ h. record h { refreshed_at = created_at; version = version }) (λ h. h.version)
          (λ n h. record h { version = n }) current.hosts source.hosts in
      record {
        version = version;
        created_at = created_at;
        hosts = hosts;
        host_ids = host_order hosts;
        items =
            publish_map item_definitions_equal
              (λ i. record i { refreshed_at = created_at; version = version }) (λ i. i.version)
              (λ n i. record i { version = n }) current.items source.items;
        host_items = source.host_items;
        groups =
            publish_map group_definitions_equal (λ g. record g { version = version })
              (λ g. g.version) (λ n g. record g { version = n }) current.groups source.groups;
        item_groups = source.item_groups;
      }

  unfoldable pub diff_snapshots : MetadataSnapshot → MetadataSnapshot → MetadataDiff
  unfolding removed_keys changed_keys host_definitions_equal
  diff_snapshots old next = record {
    old_version = old.version;
    new_version = next.version;
    added_hosts = sort_texts (removed_keys host_definitions_equal next.hosts old.hosts);
    removed_hosts = sort_texts (removed_keys host_definitions_equal old.hosts next.hosts);
    changed_hosts = sort_texts (changed_keys host_definitions_equal old.hosts next.hosts);
    added_items = sort_texts (removed_keys item_definitions_equal next.items old.items);
    removed_items = sort_texts (removed_keys item_definitions_equal old.items next.items);
    changed_items = sort_texts (changed_keys item_definitions_equal old.items next.items);
    added_groups = sort_texts (removed_keys group_definitions_equal next.groups old.groups);
    removed_groups = sort_texts (removed_keys group_definitions_equal old.groups next.groups);
    changed_groups = sort_texts (changed_keys group_definitions_equal old.groups next.groups);
  }

  abbrev pub no_diff : ℕ → MetadataDiff
  no_diff version = record {
    old_version = version;
    new_version = version;
    added_hosts = [];
    removed_hosts = [];
    changed_hosts = [];
    added_items = [];
    removed_items = [];
    changed_items = [];
    added_groups = [];
    removed_groups = [];
    changed_groups = [];
  }

  -- The snapshot that is published, and the diff; `now` is the clock.
  unfoldable pub apply_snapshot :
      Time → Option MetadataSnapshot → MetadataSnapshot → MetadataSnapshot × MetadataDiff
  unfolding clone_snapshot diff_snapshots
  apply_snapshot now none current = (current, no_diff current.version)
  apply_snapshot now (some next) current =
      let published : MetadataSnapshot =
        clone_snapshot next current ((current.version + 1) % int64_mod)
          (if next.created_at == 0 then now else next.created_at) in
      (published, diff_snapshots current published)
