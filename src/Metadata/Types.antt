-- ===== src/Metadata/Types.antt =====
-- internal/metadata/types.go. A nil pointer in a map is read as a missing key, as every reader of
-- the source treats it.
use zabbix_exporter.Prelude.{ℕ, String, Bool, List, Map}
use zabbix_exporter.Time.{Time, Duration}

pub data DelayParseStatus : Type 0 where
  parsed missing invalid flexible scheduled macro : DelayParseStatus

pub record Label : Type 0 where
  pub name : String
  pub value : String

pub record HostMetadata : Type 0 where
  pub host_id : String
  pub host_name : String
  pub display_name : String
  pub host_ip : String
  pub inventory_fields : Map String
  pub labels : List Label
  pub refreshed_at : Time
  pub version : ℕ

pub record ItemMetadata : Type 0 where
  pub item_id : String
  pub host_id : String
  pub key : String
  pub name : String
  pub value_type : String
  pub raw_delay : String
  pub delay : Duration
  pub delay_parse_state : DelayParseStatus
  pub status : String
  pub state : String
  pub enabled : Bool
  pub metric_name : String
  pub labels : List Label
  pub refreshed_at : Time
  pub version : ℕ

pub record CollectionGroup : Type 0 where
  pub id : String
  pub host_id : String
  pub value_type : String
  pub delay : Duration
  pub item_ids : List String
  pub version : ℕ

pub record MetadataSnapshot : Type 0 where
  pub version : ℕ
  pub created_at : Time
  pub hosts : Map HostMetadata
  pub host_ids : List String
  pub items : Map ItemMetadata
  pub host_items : Map (List String)
  pub groups : Map CollectionGroup
  pub item_groups : Map String
