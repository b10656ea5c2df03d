-- ===== src/Collector/Query.antt =====
-- internal/collector/group_collector.go: one query, which splits its items when the answer may be
-- truncated. What the collector calls acts on a world of which nothing else is known.
pub mod Induction
pub mod Counts
pub mod Coverage
use zabbix_exporter.Prelude.{
  ℕ, zero, suc, ◌+◌, ◌/◌, String, Bool, true, false, ◌||◌, ◌&&◌, not, List, [], ◌∷◌, ◌++◌, Option,
  none, some, ltb, leb, ◌==◌, if◌then◌else◌, length, take, drop,
}
use zabbix_exporter.Time.{Time, Duration}
use zabbix_exporter.Zabbix.History.{HistoryQuery, BatchResult, BatchStatus}
use zabbix_exporter.Metadata.Types.{MetadataSnapshot}
use zabbix_exporter.Cache.Apply.{ApplyResult, is_usable}
use zabbix_exporter.Collector.{HistoryConfig, query_limit, filter_expired_latest}

-- The context, the history reader, the value store, the metadata source and the clock.
pub record Ports {ℓ} (W : Type ℓ) : Type ℓ where
  pub is_cancelled : W → Bool
  pub query_history_batch : W → HistoryQuery → W × BatchResult
  pub apply_batch : W → BatchResult → Option MetadataSnapshot → W × ApplyResult
  pub mark_miss : W → List String → Time → W
  pub snapshot : W → Option MetadataSnapshot
  pub now : W → Time

pub data CollectError : Type 0 where
  cancelled possibly_truncated reader_failed metadata_changed before_watermark : CollectError
  bad_status : BatchStatus → CollectError

-- `errors` is the joined error, [] for nil.
pub record QueryResult : Type 0 where
  pub complete : Bool
  pub queries : ℕ
  pub splits : ℕ
  pub applied : ℕ
  pub misses : List String
  pub finished_at : Time
  pub truncated : Bool
  pub errors : List CollectError

-- The result of a query that was made and is not complete.
abbrev pub failed_with : Time → Bool → CollectError → QueryResult
failed_with finished_at truncated error = record {
  complete = false;
  queries = 1;
  splits = 0;
  applied = 0;
  misses = [];
  finished_at = finished_at;
  truncated = truncated;
  errors = error ∷ [];
}

abbrev pub not_started : QueryResult
not_started = record {
  complete = false;
  queries = 0;
  splits = 0;
  applied = 0;
  misses = [];
  finished_at = 0;
  truncated = false;
  errors = CollectError.cancelled ∷ [];
}

unfoldable pub merge_split : QueryResult → QueryResult → QueryResult
merge_split left right = record {
  complete = left.complete && right.complete;
  queries = 1 + left.queries + right.queries;
  splits = 1 + left.splits + right.splits;
  applied = left.applied + right.applied;
  misses = left.misses ++ right.misses;
  finished_at =
      if ltb left.finished_at right.finished_at then right.finished_at else left.finished_at;
  truncated = true;
  errors = left.errors ++ right.errors;
}

abbrev pub is_truncated_status : BatchStatus → Bool
is_truncated_status BatchStatus.possibly_truncated = true
is_truncated_status _ = false

unfoldable pub may_be_truncated : HistoryQuery → BatchResult → Bool
may_be_truncated query batch =
    is_truncated_status batch.status
    || batch.limit_hit
    || (ltb 0 query.limit && leb query.limit batch.returned)

module _ {ℓ} {W : Type ℓ} (ports : Ports W) (config : HistoryConfig) (delay : Duration)
    (snapshot : Option MetadataSnapshot) where
  -- An answer that is not truncated.
  unfoldable pub settle : W → HistoryQuery → BatchResult → W × QueryResult
  settle w query batch =
      if not (is_usable batch.status)
      then (
        w,
        failed_with batch.finished_at false (
            if batch.failed
            then CollectError.reader_failed
            else CollectError.bad_status batch.status),
      )
      else let (w', apply) =
          ports.apply_batch w (filter_expired_latest batch delay query.time_till) snapshot in
        if apply.stale == 0
        then (
          w',
          record {
            complete = true;
            queries = 1;
            splits = 0;
            applied = apply.created + apply.updated + apply.unchanged;
            misses = apply.miss_item_ids;
            finished_at = batch.finished_at;
            truncated = false;
            errors = [];
          },
        )
        else (w', failed_with batch.finished_at false CollectError.metadata_changed)

  unfoldable pub limit_query : HistoryQuery → HistoryQuery
  limit_query q = record q { limit = query_limit config q delay }

  -- The answer to the query, with its limit; the query of the answer is the one that was asked.
  unfoldable pub ask : W → HistoryQuery → W × BatchResult
  unfolding limit_query
  ask w q =
      let (w', answer) = ports.query_history_batch w (limit_query q) in
      (w', record answer { query = limit_query q })

  abbrev pub half_of : HistoryQuery → (List String → List String) → HistoryQuery
  half_of q part = record q { item_ids = part q.item_ids }

  -- The depth that remains, `MaxSplitDepth - depth`, comes first.
  unfoldable pub query : ℕ → W → HistoryQuery → W × QueryResult
  unfolding settle may_be_truncated ask
  query zero w q = elim (ports.is_cancelled w) [
    | true ↦ (w, not_started)
    | false ↦ elim (may_be_truncated (limit_query q) (ask w q).1) [
      | false ↦ settle (ask w q).0 (limit_query q) (ask w q).1
      | true ↦
          ((ask w q).0, failed_with (ask w q).1.finished_at true CollectError.possibly_truncated)
    ]
  ]
  query (suc left) w q = elim (ports.is_cancelled w) [
    | true ↦ (w, not_started)
    | false ↦ elim (may_be_truncated (limit_query q) (ask w q).1) [
      | false ↦ settle (ask w q).0 (limit_query q) (ask w q).1
      | true ↦ elim (ltb (length q.item_ids) 2) [
        | true ↦
            ((ask w q).0, failed_with (ask w q).1.finished_at true CollectError.possibly_truncated)
        | false ↦
            let middle : ℕ = length q.item_ids / 2 in
            let l : W × QueryResult =
              query left (ask w q).0 (half_of (limit_query q) (take middle)) in
            let r : W × QueryResult = query left l.0 (half_of (limit_query q) (drop middle)) in
            (r.0, merge_split l.1 r.1)
      ]
    ]
  ]
