-- ===== src/Tests/Collected.antt =====
-- The theorems on the collector, with a reader whose answer on two items or more hits its limit.
use zabbix_exporter.Prelude.{
  ℕ, ◌⊎◌, All, ◌+◌, ◌*◌, ◌≤◌, ◌≡◌, refl, String, true, false, List, [], ◌∷◌, ◌++◌, none, leb,
  length, arith,
}
use zabbix_exporter.Time.{minute, second, since}
use zabbix_exporter.Zabbix.History.{HistoryQuery, BatchResult, BatchStatus}
use zabbix_exporter.Cache.Apply.{no_change}
use zabbix_exporter.Collector.{HistoryConfig, query_limit}
use zabbix_exporter.Collector.Query.{Ports, merge_split, query}
use zabbix_exporter.Collector.Query.Counts.{Counts, IsAccounted, IsTold, query-IsAccounted}
use zabbix_exporter.Collector.Query.Coverage.{query_covers}
use zabbix_exporter.Collector.Batches.{
  Collecting, watermark, collect_batch, collect_group, retain_groups,
}
use zabbix_exporter.Collector.Batches.Watermarks.{
  IsPresent, IsCollected, collect_batch-IsCollected, collect_group_rises, watermark-retain_groups,
}
use zabbix_exporter.Schedule.State.{Batch}
use zabbix_exporter.Tests.Scheduled.{noon, group_a}

-- The world is the list of the items of the stored answers.
abbrev answer : HistoryQuery → BatchResult
answer q = record {
  query = q;
  status = BatchStatus.success;
  records = [];
  latest = none;
  returned = 1;
  limit_hit = leb 2 (length q.item_ids);
  started_at = noon;
  finished_at = noon;
  failed = false;
}

abbrev ports : Ports (List String)
ports = record {
  is_cancelled = λ w. false;
  query_history_batch = λ w q. (w, answer q);
  apply_batch = λ w b s. (w ++ b.query.item_ids, no_change BatchStatus.success 1);
  mark_miss = λ w ids t. w;
  snapshot = λ w. none;
  now = λ w. noon;
}

abbrev history : HistoryConfig
history = record {
  limit = 100;
  max_split_depth = 3;
  overlap_min = 5 * minute;
  overlap_max = 15 * minute;
  query_timeout = 30 * second;
}

abbrev three_items : HistoryQuery
three_items = record {
  group_id = "a";
  item_ids = "i" ∷ "j" ∷ "k" ∷ [];
  value_type = 0;
  time_from = noon;
  time_till = noon + 5 * minute;
  limit = 0;
}

all_complete : (query ports history minute none 3 [] three_items).1.complete ≡ true
unfolding query query_limit merge_split since
all_complete = refl

query_covers_example : (query ports history minute none 3 [] three_items).0 ≡ "i" ∷ "j" ∷ "k" ∷ []
query_covers_example =
    query_covers ports history minute none (λ w. w) (λ w q. refl) (λ w b u below. refl) 3 []
      three_items (omega arith) all_complete

-- The world is the number of the requests.
abbrev counting : Ports ℕ
counting = record {
  is_cancelled = λ w. false;
  query_history_batch = λ w q. (w + 1, answer q);
  apply_batch = λ w b s. (w, no_change BatchStatus.success 1);
  mark_miss = λ w ids t. w;
  snapshot = λ w. none;
  now = λ w. noon;
}

query-IsAccounted_example :
    Counts counting history minute none
      (λ w. w)
      (λ w q. refl)
      (λ w b. refl)
      7
      (query counting history minute none 3 7 three_items)
    × IsAccounted three_items (query counting history minute none 3 7 three_items).1
    × IsTold (query counting history minute none 3 7 three_items).1
query-IsAccounted_example =
    query-IsAccounted counting history minute none (λ w. w) (λ w q. refl) (λ w b. refl) 3 7
      three_items

abbrev batch_b : Batch
batch_b = record { id = "b"; item_ids = "i" ∷ "j" ∷ [] }

abbrev collecting : Collecting (List String)
collecting = record { world = []; states = ("b", noon) ∷ ("c", noon) ∷ [] }

collect_batch-IsCollected_example :
    IsCollected ports history "b"
      (noon + minute)
      collecting
      (collect_batch ports history group_a batch_b (noon + minute) collecting)
collect_batch-IsCollected_example =
    collect_batch-IsCollected ports history group_a batch_b (noon + minute) collecting

collect_group_rises_example :
    watermark collecting.states "b"
    ≤ watermark (collect_group ports history group_a (noon + minute) collecting).0.states "b"
collect_group_rises_example =
    collect_group_rises ports history group_a (noon + minute) collecting "b"

watermark-retain_groups_example :
    IsPresent (group_a ∷ []) "b"
      × (watermark (retain_groups (group_a ∷ []) collecting.states) "b"
          ≡ watermark collecting.states "b")
    ⊎ All (λ group. All (λ batch. batch.id ≡ "b" → ⊥) group.batches) (group_a ∷ [])
      × (watermark (retain_groups (group_a ∷ []) collecting.states) "b" ≡ 0)
watermark-retain_groups_example = watermark-retain_groups (group_a ∷ []) collecting.states "b"
