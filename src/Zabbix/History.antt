-- ===== src/Zabbix/History.antt =====
-- internal/zabbix/history.go: queries, results and the reduction to the latest points.
use zabbix_exporter.Prelude.{
  ℕ, String, Bool, ◌&&◌, ◌||◌, List, [], ◌∷◌, Option, none, some, ℤ, pos, negsuc, ltb, ◌==◌,
  if◌then◌else◌, Map, lookup, put,
}
use zabbix_exporter.Time.{Time}

-- `clock` counts seconds from the zero time, as `Time.unix`; the text of the value is parsed later.
pub record HistoryItem : Type 0 where
  pub item_id : String
  pub clock : ℕ
  pub value : String
  pub ns : ℤ

pub record HistoryQuery : Type 0 where
  pub group_id : String
  pub item_ids : List String
  pub value_type : ℕ
  pub time_from : Time
  pub time_till : Time
  pub limit : ℕ

pub data BatchStatus : Type 0 where
  success empty possibly_truncated api_error decode_error : BatchStatus

-- `latest` is `none` where the source has a nil map.
pub record BatchResult : Type 0 where
  pub query : HistoryQuery
  pub status : BatchStatus
  pub records : List HistoryItem
  pub latest : Option (Map HistoryItem)
  pub returned : ℕ
  pub limit_hit : Bool
  pub started_at : Time
  pub finished_at : Time
  pub failed : Bool

abbrev pub ltb_ℤ : ℤ → ℤ → Bool
ltb_ℤ (pos a) (pos b) = ltb a b
ltb_ℤ (pos a) (negsuc b) = Bool.false
ltb_ℤ (negsuc a) (pos b) = Bool.true
ltb_ℤ (negsuc a) (negsuc b) = ltb b a

-- The new point replaces the current one.
unfoldable pub later : HistoryItem → HistoryItem → Bool
later record' current =
    ltb current.clock record'.clock
    || (record'.clock == current.clock && ltb_ℤ current.ns record'.ns)

reduce_step : HistoryItem → Map HistoryItem → Map HistoryItem
unfolding later
reduce_step point latest = elim (lookup point.item_id latest) [
  | none ↦ put point.item_id point latest
  | some current ↦ if later point current then put point.item_id point latest else latest
]

reduce_from : Map HistoryItem → List HistoryItem → Map HistoryItem
unfolding reduce_step
reduce_from latest [] = latest
reduce_from latest (point ∷ points) = reduce_from (reduce_step point latest) points

unfoldable pub reduce_latest : List HistoryItem → Map HistoryItem
unfolding reduce_from
reduce_latest records = reduce_from [] records

-- BatchStatus.String().
unfoldable pub batch_status_name : BatchStatus → String
batch_status_name BatchStatus.success = "success"
batch_status_name BatchStatus.empty = "empty"
batch_status_name BatchStatus.possibly_truncated = "possibly_truncated"
batch_status_name BatchStatus.api_error = "api_error"
batch_status_name BatchStatus.decode_error = "decode_error"
