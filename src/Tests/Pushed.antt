-- ===== src/Tests/Pushed.antt =====
-- The theorems on the delivery of batches, on their making and on configurations, at concrete inputs.
use zabbix_exporter.Prelude.{
  ℕ, ◌+◌, ◌<◌, ◌≤◌, ◌≡◌, refl, Bool, true, false, [], ◌∷◌, some, pos, All, replicate, length, ltb,
  if◌then◌else◌, arith,
}
use zabbix_exporter.Cache.State.{PublishPolicy}
use zabbix_exporter.Cache.Shard.{empty_shard}
use zabbix_exporter.Cache.Values.{ValueCache}
use zabbix_exporter.Cache.Setup.{
  ValueCacheConfig, new_value_cache, is_shard_count, is_slot_count, is_capacity,
}
use zabbix_exporter.Schedule.{batches, concat, batches-concat}
use zabbix_exporter.Push.Delivery.{Exchange, send, IsDelivery, send-attempts}
use zabbix_exporter.Push.Queue.{
  EncodedBatch, LaneQueue, try_enqueue, begin_long_cycle, pop, latest_or_zero, cycle_at,
}
use zabbix_exporter.Push.Queue.Cycles.{begin_long_cycle-IsSound}
use zabbix_exporter.Push.Queue.Sound.{IsSound, IsOffered, IsTaken, try_enqueue-IsSound, pop-IsSound}

-- Two failures of the transport, then a success.
abbrev exchange : ℕ → Exchange
exchange n = if ltb n 3 then Exchange.transport_failure else Exchange.response 204 true

abbrev waits : ℕ → Bool
waits n = true

send-attempts_example :
    IsDelivery exchange waits 1 (send exchange waits 4) × ((send exchange waits 4).attempts ≤ 4 + 1)
send-attempts_example = send-attempts exchange waits 4

abbrev encoded : EncodedBatch
encoded = record {
  body = 1 ∷ [];
  acks = [];
  keys = [];
  policy = PublishPolicy.cycle_timestamp;
  slot = 4;
  cycle_timestamp_ms = 60000;
  lane = 1;
  samples = 1;
  uncompressed_bytes = 1;
  compressed_bytes = 1;
}

abbrev open_queue : LaneQueue
open_queue = record {
  lanes = [] ∷ (encoded ∷ []) ∷ [];
  capacity = 8;
  size = 1;
  closed = false;
  latest_cycles = (4, 60000) ∷ [];
}

timely_test : latest_or_zero (cycle_at 4 open_queue.latest_cycles) ≤ 60000
unfolding cycle_at
timely_test = omega arith

open_queue-IsSound : IsSound open_queue
open_queue-IsSound = record {
  counted = refl;
  bounded = omega arith;
  timely = (tt, ((λ long. timely_test, tt), tt));
}

try_enqueue-IsSound_example :
    IsSound (try_enqueue open_queue encoded).0
    × IsOffered open_queue encoded (try_enqueue open_queue encoded)
try_enqueue-IsSound_example =
    try_enqueue-IsSound open_queue encoded (omega arith) open_queue-IsSound

begin_long_cycle-IsSound_example :
    IsSound (begin_long_cycle open_queue 4 120000).queue
    × ((begin_long_cycle open_queue 4 120000).queue.size
          + length (begin_long_cycle open_queue 4 120000).removed
        ≡ 1)
begin_long_cycle-IsSound_example = begin_long_cycle-IsSound open_queue 4 120000 open_queue-IsSound

pop-IsSound_example : IsSound (pop open_queue 1).0 × IsTaken open_queue 1 (pop open_queue 1)
pop-IsSound_example = pop-IsSound open_queue 1 open_queue-IsSound

batches-concat_example :
    (concat (batches 2 ("a" ∷ "b" ∷ "c" ∷ [])) ≡ "a" ∷ "b" ∷ "c" ∷ [])
    × All (λ b. (0 < length b) × (length b ≤ 2)) (batches 2 ("a" ∷ "b" ∷ "c" ∷ []))
batches-concat_example = batches-concat 2 ("a" ∷ "b" ∷ "c" ∷ []) (omega arith)

abbrev config : ValueCacheConfig
config = record {
  shard_count = pos 64;
  publish_slots = pos 0;
  initial_capacity = pos 10;
  miss_threshold = 3;
  has_registrar = true;
}

abbrev made : ValueCache
made = record {
  shards = replicate 64 empty_shard;
  publish_slots = 12;
  miss_threshold = 3;
  has_registrar = true;
  next_value_version = 0;
  entries = 0;
}

made_test : new_value_cache config ≡ some made
unfolding new_value_cache is_shard_count is_slot_count is_capacity
made_test = refl
