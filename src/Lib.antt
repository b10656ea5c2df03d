-- ===== src/Lib.antt =====
-- The Zabbix exporter's value pipeline: the scheduler of collections, the collector of history,
-- the cache of latest values, its expiry, and the encoding and delivery of batches to a Remote
-- Write endpoint.
--
-- The scheduler keeps the groups of items with the times of their runs. It hands the groups that
-- are due to workers, one task of a group at a time. For each batch of a group's items the
-- collector asks Zabbix for the history of a window, splits the batch when the answer may be
-- truncated, and hands each result to the value cache (ApplyBatch), which keeps the newest point
-- of each item in one of its shards and registers each new generation with the expiry wheel.
-- Items without an answer are reported as misses and counted (MarkMiss). Metadata reconciliation
-- deletes items (Delete), the wheel deletes generations that have expired (ExpireDue, through
-- DeleteVersioned). The publisher reads pages of values (ReadPublishPage), reserves each sample
-- until it was sent or given up, fills bounded batches, sends them, and acknowledges what was
-- delivered (AckPublished); a scrape reads pages without acknowledging (ReadScrapePage).
--
-- Files, and the code that they model:
--   Time: Go's time.Time and time.Duration as numbers of nanoseconds.
--   Zabbix/History: internal/zabbix/history.go, results and ReduceLatest.
--   Metadata/Types: internal/metadata/types.go, the snapshot that ApplyBatch reads.
--   Metadata/Store, Store/Versions: internal/metadata/cache.go, the store of snapshots.
--   Cache/State, State/Times: internal/cache/value_state.go, the state of an item and its times.
--   Cache/Shard, Shard/Order, Shard/Valid: internal/cache/shard.go, a shard and its invariant.
--   Cache/Sweep and its children: the loop over touched shards that the bulk operations of
--     internal/cache/value_cache.go share, and what it does to one item, one shard and a sum.
--   Cache/Values and its children: MarkMiss, Delete, DeleteVersioned, AckPublished and Load of
--     internal/cache/value_cache.go, against a flat map and against the entry counter.
--   Cache/Buckets, Cache/Wheel and its children: internal/cache/expiry_wheel.go.
--   Cache/Coverage: the cache and the wheel together.
--   Cache/Apply and its children: ApplyBatch of internal/cache/value_cache.go.
--   Cache/Pages, Pages/Selected: ReadPublishPage and ReadScrapePage.
--   Cache/Setup: NewValueCache and Stats.
--   Push/Delivery, Push/Queue and its children: internal/promwrap/push_worker.go, the retries and
--     the lane queue.
--   Push/Encoder, Encoder/Bounds: internal/promwrap/batch_encoder.go.
--   Push/Publisher, Publisher/Cycles, Push/Batcher and its children: internal/promwrap/publisher.go,
--     the publisher's state and its page batcher, with the account of reservations.
--   Schedule: internal/scheduler/group.go, the batches of a group.
--   Schedule/Cadence, State, Replace, Dispatch and their children: internal/scheduler/scheduler.go,
--     the times of runs, the state, ReplaceGroups, dispatchDue and handleDone.
--   Schedule/Flight, Flight/Single: the same with internal/scheduler/worker_pool.go, as steps.
--   Collector and its children: internal/collector/group_collector.go, the limit and window of a
--     query, the splitting query, and the watermarks of batches.
--   Prelude: lists, maps and sets over native numbers and texts. Tests: the theorems at concrete
--     inputs.
--
-- Times count nanoseconds from Go's zero time, so that 0 is the zero time: seconds are the
-- source's Unix seconds plus 62135596800, minute keys the source's plus 1035593280. Only times
-- from year 1 on and delays that are not negative are modelled. Adding a duration wraps it at 2 ^
-- 64 as an int64 does; version and sequence numbers wrap at 2 ^ 64. A float64 is its bit pattern.
-- A shard's index is `sum % n`, which is the source's mask because n is a power of two.
-- Parameters are the hash of a text (xxhash, FNV), strconv.ParseFloat, the generated Size and
-- Marshal and snappy.Encode, and the HTTP exchange of a delivery attempt. What the collector
-- calls (the context, the reader, the value store, the metadata source, the clock) acts on a
-- world of which nothing else is known. A Go map is a list of keys and values, in the order in
-- which the program happens to iterate over it.
--
-- Outside the steps of the scheduler each operation runs alone: a shard's lock makes a visit
-- atomic, and interleavings of the visits of two operations, registrations between the batches of
-- a round of ExpireDue, and the notification channels of the queue are not modelled. What the
-- metadata source returns at each check of ApplyBatch is an argument. The loop of ExpireDue runs
-- on fuel of one more than the budget of entries, since each turn that goes on examines one; that
-- of dispatchDue on one more than the number of entries, since each pass moves one of them.
-- Schedule/Dispatch has dispatchDue with nothing between its passes, Schedule/Flight has the
-- passes one by one. A query splits on what remains of the maximal depth, as the source counts
-- it. The heap of the scheduler is its map of entries, from which the first entry by the heap's
-- order is taken. In the steps of the scheduler a replacement of the groups, one pass of the loop
-- of dispatchDue and the handling of a report are atomic, since each of them holds the
-- scheduler's lock; between two passes workers and replacements go on. A task that a worker takes
-- while a pass holds the lock counts as taken before or after that pass. Starting and stopping
-- the scheduler, and its timer, are not modelled. Metrics, logging, configuration files, the HTTP
-- clients and the goroutines of the pipeline are not modelled; nor are yet the metadata builder
-- and refresher, the grouping of items, and the loops that feed the publisher's page batcher.
pub mod Prelude
pub mod Time
pub mod Zabbix
pub mod Metadata
pub mod Cache
pub mod Collector
pub mod Push
pub mod Schedule
pub mod Tests
