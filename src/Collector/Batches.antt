-- ===== src/Collector/Batches.antt =====
-- internal/collector/group_collector.go: the batches of a group, and the watermark of each, the time
-- up to which its history has been read. A missing state is read as the zero time.
pub mod Watermarks
use zabbix_exporter.Prelude.{
  sort_texts, ℕ, ◌+◌, String, Bool, true, false, ◌&&◌, not, List, [], ◌∷◌, ◌++◌, Option, none, some,
  Map, lookup, put, contains, ltb, ◌==◌, if◌then◌else◌, length, keep, text_eq,
}
use zabbix_exporter.Time.{Time, Duration, back}
use zabbix_exporter.Schedule.{compact_strings}
use zabbix_exporter.Schedule.State.{Group, Batch}
use zabbix_exporter.Zabbix.History.{HistoryQuery}
use zabbix_exporter.Collector.{HistoryConfig, bootstrap_window, overlap_for_delay}
use zabbix_exporter.Collector.Query.{Ports, QueryResult, CollectError, query}

unfoldable pub unique_sorted : List String → List String
unfolding sort_texts compact_strings
unique_sorted values = compact_strings (sort_texts values)

unfoldable pub watermark : Map Time → String → Time
watermark states id = elim (lookup id states) [ none ↦ 0 | some t ↦ t ]

pub record BatchCollectionResult : Type 0 where
  pub batch_id : String
  pub complete : Bool
  pub watermark_before : Time
  pub watermark_after : Time
  pub queries : ℕ
  pub splits : ℕ
  pub applied : ℕ
  pub misses : ℕ
  pub possibly_truncated : Bool
  pub errors : List CollectError

-- The world and the watermarks, which a collection changes.
pub record Collecting {ℓ} (W : Type ℓ) : Type ℓ where
  pub world : W
  pub states : Map Time

unfoldable pub window_start : HistoryConfig → Duration → Time → Time → Time
window_start config delay mark till =
    if mark == 0
    then back till (bootstrap_window delay)
    else back mark (overlap_for_delay delay config.overlap_min config.overlap_max)

module _ {ℓ} {W : Type ℓ} (ports : Ports W) (config : HistoryConfig) where
  -- The misses are marked at the end of the last query, and the watermark moves.
  unfoldable pub finish :
      String → Time → QueryResult → Collecting W → Collecting W × BatchCollectionResult
  unfolding unique_sorted watermark
  finish id till attempt c =
      let misses : List String = unique_sorted attempt.misses in
      let fetched_at : Time = if attempt.finished_at == 0 then till else attempt.finished_at in
      (
        record {
          world = if length misses == 0 then c.world else ports.mark_miss c.world misses fetched_at;
          states = put id till c.states;
        },
        record {
          batch_id = id;
          complete = true;
          watermark_before = watermark c.states id;
          watermark_after = till;
          queries = attempt.queries;
          splits = attempt.splits;
          applied = attempt.applied;
          misses = length misses;
          possibly_truncated = attempt.truncated;
          errors = attempt.errors;
        },
      )

  unfoldable pub give_up :
      String → QueryResult → Collecting W → Collecting W × BatchCollectionResult
  unfolding watermark
  give_up id attempt c = (
    c,
    record {
      batch_id = id;
      complete = false;
      watermark_before = watermark c.states id;
      watermark_after = watermark c.states id;
      queries = attempt.queries;
      splits = attempt.splits;
      applied = attempt.applied;
      misses = 0;
      possibly_truncated = attempt.truncated;
      errors = attempt.errors;
    },
  )

  abbrev pub no_attempt : QueryResult
  no_attempt = record {
    complete = false;
    queries = 0;
    splits = 0;
    applied = 0;
    misses = [];
    finished_at = 0;
    truncated = false;
    errors = CollectError.before_watermark ∷ [];
  }

  abbrev pub batch_query : Group → Batch → Time → Time → HistoryQuery
  batch_query group batch mark till = record {
    group_id = group.id;
    item_ids = batch.item_ids;
    value_type = group.value_type;
    time_from = window_start config group.delay mark till;
    time_till = till;
    limit = 0;
  }

  unfoldable pub attempt_batch : Group → Batch → Time → Time → W → W × QueryResult
  unfolding query window_start
  attempt_batch group batch mark till w =
      query ports config group.delay (ports.snapshot w) config.max_split_depth w
        (batch_query group batch mark till)

  unfoldable pub collect_batch :
      Group → Batch → Time → Collecting W → Collecting W × BatchCollectionResult
  unfolding attempt_batch finish give_up
  collect_batch group batch till c =
      let mark : Time = watermark c.states batch.id in
      let opened : Map Time = put batch.id mark c.states in
      if not (mark == 0) && ltb till mark
      then give_up batch.id no_attempt (record c { states = opened })
      else let (w, attempt) = attempt_batch group batch mark till c.world in
        let after : Collecting W = record { world = w; states = opened } in
        if attempt.complete
        then finish batch.id till attempt after
        else give_up batch.id attempt after

  -- The loop over the batches: what it collected, and the joined error.
  unfoldable pub collect_batches :
      Group
      → Time
      → List Batch
      → Collecting W
      → Collecting W × (List BatchCollectionResult × List CollectError)
  unfolding collect_batch
  collect_batches group till [] c = (c, ([], []))
  collect_batches group till (batch ∷ batches) c = elim (ports.is_cancelled c.world) [
    | true ↦ (c, ([], CollectError.cancelled ∷ []))
    | false ↦
        let (c1, result) = collect_batch group batch till c in
        let (c2, (results, errors)) = collect_batches group till batches c1 in
        (c2, (result ∷ results, result.errors ++ errors))
  ]

  unfoldable pub collect_group :
      Group → Time → Collecting W → Collecting W × (List BatchCollectionResult × List CollectError)
  unfolding collect_batches
  collect_group group till c =
      collect_batches group (if till == 0 then ports.now c.world else till) group.batches c

-- LastQueryTill.
unfoldable pub last_query_till : Map Time → String → Time
unfolding watermark
last_query_till states id = watermark states id

unfoldable pub batch_ids : List Batch → List String
batch_ids [] = []
batch_ids (batch ∷ batches) = batch.id ∷ batch_ids batches

unfoldable pub retained_ids : List Group → List String
unfolding batch_ids
retained_ids [] = []
retained_ids (group ∷ groups) = batch_ids group.batches ++ retained_ids groups

unfoldable pub retain_groups : List Group → Map Time → Map Time
unfolding retained_ids
retain_groups groups states = keep (λ kv. contains kv.0 (retained_ids groups)) states
