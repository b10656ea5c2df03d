-- ===== src/Tests/Applied.antt =====
-- The theorems on applied batches and on pages, at a concrete batch.
use zabbix_exporter.Prelude.{
  ℕ, ◌+◌, ◌≤◌, ◌≡◌, refl, String, true, false, [], ◌∷◌, ◌++◌, Option, none, some, pos,
  if◌then◌else◌, text_eq, text_dec, length, lookup, put, contains, include, arith,
}
use zabbix_exporter.Time.{minute, unix}
use zabbix_exporter.Zabbix.History.{BatchStatus, BatchResult, reduce_latest}
use zabbix_exporter.Metadata.Types.{MetadataSnapshot, ItemMetadata, DelayParseStatus}
use zabbix_exporter.Cache.State.{ValueState, source_is_newer}
use zabbix_exporter.Cache.Values.{load, dedup}
use zabbix_exporter.Cache.Values.Accounts.{live_values}
use zabbix_exporter.Cache.Sweep.{sweep, visit, run_bucket}
use zabbix_exporter.Cache.Wheel.{register_expiry}
use zabbix_exporter.Cache.Coverage.{IsRegistered}
use zabbix_exporter.Cache.Apply.{
  Applied, apply_batch, apply_points, is_usable, is_fresh, latest_of, returned_ids, miss_ids,
  marks_of, scan_query, mark_stale, sort_latest, sort_points, sort_verdict, check_point,
  check_value, write_pending, write_step, stays, install,
}
use zabbix_exporter.Cache.Apply.Writes.{apply_batch-IsRegistered}
use zabbix_exporter.Cache.Apply.Newer.{IsNotOlder, load-apply_batch}
use zabbix_exporter.Cache.Apply.Counts.{apply_batch-counts}
use zabbix_exporter.Cache.Apply.Misses.{IsMiss, apply_batch-misses}
use zabbix_exporter.Cache.Pages.{
  PublishCursor, PublishPage, PageResult, scrape_eligible, read_page, scan_shards, scan_keys,
  select, publish_value,
}
use zabbix_exporter.Cache.Pages.Selected.{rest_of, read_page-picked_from}
use zabbix_exporter.Cache.Shard.{first_sequence_after, search_after}
use zabbix_exporter.Tests.{
  hash, start, now, state_a, cache_ab, wheel_ab, cache_ab-IsRegistered, load_ab, shards-IsValid,
  two_shards,
}

abbrev parse : String → Option ℕ
parse text = if text_eq text "1.5" then some 4_609_434_218_613_702_656 else none

abbrev pub item_a : ItemMetadata
item_a = record {
  item_id = "a";
  host_id = "h";
  key = "k";
  name = "n";
  value_type = "0";
  raw_delay = "1m";
  delay = minute;
  delay_parse_state = DelayParseStatus.parsed;
  status = "0";
  state = "0";
  enabled = true;
  metric_name = "k";
  labels = [];
  refreshed_at = start;
  version = 3;
}

abbrev pub snapshot : MetadataSnapshot
snapshot = record {
  version = 9;
  created_at = start;
  hosts = [];
  host_ids = [];
  items = ("a", item_a) ∷ ("b", record item_a { item_id = "b" }) ∷ [];
  host_items = [];
  groups = [];
  item_groups = [];
}

-- A newer point of the item "a", and none of the item "b".
abbrev batch : BatchResult
batch = record {
  query = record {
    group_id = "g";
    item_ids = "a" ∷ "b" ∷ [];
    value_type = 0;
    time_from = start;
    time_till = now;
    limit = 10;
  };
  status = BatchStatus.success;
  records = record { item_id = "a"; clock = unix start + 60; value = "1.5"; ns = pos 0 } ∷ [];
  latest = none;
  returned = 1;
  limit_hit = false;
  started_at = now;
  finished_at = now;
  failed = false;
}

abbrev applied : Applied
applied = apply_batch hash parse cache_ab none batch (some snapshot)

apply_batch-IsRegistered_example :
    IsRegistered hash applied.cache (register_expiry wheel_ab applied.registered)
apply_batch-IsRegistered_example =
    apply_batch-IsRegistered hash parse cache_ab wheel_ab none batch (some snapshot) refl
      cache_ab-IsRegistered

stored_a : load hash cache_ab "a" ≡ some state_a
unfolding load_ab text_dec
stored_a = ground (arith, load_ab "a")

load-apply_batch_example :
    (v : ValueState) × (load hash applied.cache "a" ≡ some v)
    × (v.metadata_version ≡ 3 → IsNotOlder state_a v)
load-apply_batch_example =
    load-apply_batch hash cache_ab two_shards state_a "a" parse none batch (some snapshot) stored_a

apply_batch-counts_example :
    (live_values applied.cache ≡ live_values cache_ab + applied.result.created)
    × (applied.cache.entries ≡ 2 + applied.result.created)
    × (applied.result.created + applied.result.updated + applied.result.unchanged
          + applied.result.rejected + applied.result.skipped
        ≡ length (latest_of batch))
apply_batch-counts_example =
    apply_batch-counts hash parse cache_ab two_shards none batch snapshot refl

b_missed : contains "b" applied.result.miss_item_ids ≡ true
unfolding apply_batch apply_points contains miss_ids dedup returned_ids latest_of reduce_latest
    marks_of scan_query mark_stale is_fresh include text_dec sort_latest sort_points sort_verdict
    check_point check_value write_pending sweep visit run_bucket write_step lookup put stays
    source_is_newer install
b_missed = refl

apply_batch-misses_example :
    IsMiss hash parse cache_ab two_shards none batch snapshot "b"
    × (applied.result.stale ≡ 0)
    × (is_usable batch.status ≡ true)
apply_batch-misses_example =
    apply_batch-misses hash parse cache_ab two_shards none batch snapshot "b" b_missed

abbrev first : PublishCursor
first = record { shard = 0; sequence = 0 }

-- The first page of one value, of the two that are stored.
abbrev page_a : PublishPage
page_a = record {
  values = publish_value start state_a ∷ [];
  next = record { shard = 0; sequence = 1 };
  done = false;
}

page_a_test :
    read_page (λ state. scrape_eligible state start) start cache_ab first 1 ≡ PageResult.page page_a
unfolding read_page scan_shards scan_keys select scrape_eligible first_sequence_after search_after
    lookup text_dec publish_value
page_a_test = refl

read_page-picked_from_example :
    (rest_of (λ state. scrape_eligible state start) start cache_ab.shards first
      ≡ page_a.values
        ++ rest_of (λ state. scrape_eligible state start) start cache_ab.shards page_a.next)
    × (1 ≤ 1)
    × (length page_a.values ≡ 1)
read_page-picked_from_example =
    read_page-picked_from cache_ab (λ state. scrape_eligible state start) start first 1 page_a
      (omega arith) (omega arith) shards-IsValid page_a_test
