-- ===== src/Tests/Batched.antt =====
-- The theorems on the publisher's state and its page batcher, with one worker.
use zabbix_exporter.Prelude.{ℕ, ◌≤◌, ◌<◌, ◌≡◌, ◌≢◌, ◌⊎◌, refl, some, get_or, length, arith}
use zabbix_exporter.Cache.State.{PublishPolicy}
use zabbix_exporter.Push.Queue.{PublishKey, new_lane_queue}
use zabbix_exporter.Push.Publisher.{Publisher, new_publisher, normalize_cycle, truncated}
use zabbix_exporter.Push.Publisher.Cycles.{normalize_cycle_rises}
use zabbix_exporter.Push.Batcher.{PageBatcher, new_page_batcher, add_sample, finish}
use zabbix_exporter.Push.Batcher.Reserved.{IsReserved}
use zabbix_exporter.Push.Batcher.Reserved.Account.{IsAccountedFor}
use zabbix_exporter.Push.Batcher.Reserved.Samples.{add_sample-IsReserved}
use zabbix_exporter.Push.Batcher.Reserved.Finished.{finish-IsReserved}
use zabbix_exporter.Push.Encoder.{BatchEncoder}
use zabbix_exporter.Tests.Scheduled.{noon}
use zabbix_exporter.Tests.Encoded.{size, marshalled, sample, key_a}

abbrev publisher : Publisher
publisher = new_publisher 2 1 10

abbrev small : BatchEncoder
small = record { max_samples = 1; max_bytes = 9 }

abbrev batcher : PageBatcher
batcher = new_page_batcher 1 publisher

abbrev nothing_else : PublishKey → ℕ
nothing_else k = 0

batcher-IsReserved : IsReserved 1 nothing_else batcher
unfolding IsReserved IsAccountedFor new_page_batcher new_publisher new_lane_queue
batcher-IsReserved = ((λ k. (refl, omega arith)), (refl, (refl, (tt, (tt, tt)))))

with_sample-IsReserved :
    IsReserved 1 nothing_else
      (add_sample size
        (λ xs. some (marshalled xs))
        (λ raw. raw)
        small
        1
        noon
        PublishPolicy.cycle_timestamp
        0
        sample
        batcher).1
with_sample-IsReserved =
    add_sample-IsReserved size (λ xs. some (marshalled xs)) (λ raw. raw) small 1 noon 1 nothing_else
      PublishPolicy.cycle_timestamp 0 sample (omega arith) batcher batcher-IsReserved

abbrev filled : PageBatcher
filled =
    (add_sample size (λ xs. some (marshalled xs)) (λ raw. raw) small 1 noon
      PublishPolicy.cycle_timestamp 0 sample batcher).1

add_sample-IsReserved_example :
    IsReserved 1 nothing_else
      (add_sample size
        (λ xs. some (marshalled xs))
        (λ raw. raw)
        small
        1
        noon
        PublishPolicy.cycle_timestamp
        0
        (record sample { key = record key_a { timestamp_ms = 1000 } })
        filled).1
add_sample-IsReserved_example =
    add_sample-IsReserved size (λ xs. some (marshalled xs)) (λ raw. raw) small 1 noon 1 nothing_else
      PublishPolicy.cycle_timestamp 0 (record sample { key = record key_a { timestamp_ms = 1000 } })
      (omega arith) filled with_sample-IsReserved

finish-IsReserved_example :
    IsReserved 1 nothing_else
      (finish size (λ xs. some (marshalled xs)) (λ raw. raw) small 1 noon filled).1
finish-IsReserved_example =
    finish-IsReserved size (λ xs. some (marshalled xs)) (λ raw. raw) small 1 noon 1 nothing_else
      filled with_sample-IsReserved

slots : length publisher.last_cycle ≡ 2
unfolding new_publisher
slots = refl

normalize_cycle_rises_example :
    (get_or publisher.last_cycle 1 0 ≤ (normalize_cycle 1 noon publisher).0)
    × ((get_or (normalize_cycle 1 noon publisher).1.last_cycle 1 0
          ≡ (normalize_cycle 1 noon publisher).0)
        × (get_or publisher.last_requested 1 0 ≢ truncated noon
            → (get_or publisher.last_cycle 1 0 < (normalize_cycle 1 noon publisher).0)
              ⊎ (get_or publisher.last_cycle 1 0 ≡ 0)))
normalize_cycle_rises_example = normalize_cycle_rises 1 noon publisher (omega (arith, slots))
