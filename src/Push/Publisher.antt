-- ===== src/Push/Publisher.antt =====
-- internal/promwrap/publisher.go: the publisher's state, the reservations of samples that are on their
-- way, the admission of batches, and the cycles of slots. The publisher's locks make each step atomic.
pub mod Cycles
use zabbix_exporter.Prelude.{
  ℕ, zero, suc, ◌+◌, ◌-◌, ◌*◌, ◌/◌, ◌^◌, ◌%◌, ◌≡◌, ◌↔◌, refl, String, Bool, true, false, not, ◌&&◌,
  ◌||◌, List, [], ◌∷◌, ◌++◌, Option, none, some, ℤ, pos, negsuc, ltb, leb, ◌==◌, if◌then◌else◌,
  length, get_or, keep, replicate, text_eq, text_dec, dec_of_iff, ap, ==_iff, arith,
}
use zabbix_exporter.Time.{Time, Duration, second, millisecond, int64_mod, unix_milli}
use zabbix_exporter.Push.Queue.{
  PublishKey, EncodedBatch, LaneQueue, QueueAdmission, try_enqueue, begin_long_cycle, close,
  new_lane_queue, Begun,
}
use zabbix_exporter.Push.Delivery.{DeliveryClass, DeliveryResult}

-- As they are given: an `int` or a `time.Duration` may be negative.
pub record PublisherSettings : Type 0 where
  pub timeout : ℤ
  pub spread_slots : ℕ
  pub page_size : ℤ
  pub max_samples : ℤ
  pub max_batch_bytes : ℤ
  pub workers : ℤ
  pub queue_capacity : ℤ
  pub max_retries : ℤ
  pub retry_backoff : ℤ
  pub max_retry_backoff : ℤ

abbrev pub unless_zero : ℕ → ℤ → ℤ
unless_zero standard (pos n) = if n == 0 then pos standard else pos n
unless_zero standard (negsuc n) = negsuc n

unfoldable pub set_defaults : PublisherSettings → PublisherSettings
set_defaults c = record {
  timeout = unless_zero (30 * second) c.timeout;
  spread_slots = if c.spread_slots == 0 then 12 else c.spread_slots;
  page_size = unless_zero 5000 c.page_size;
  max_samples = unless_zero 5000 c.max_samples;
  max_batch_bytes = unless_zero (4 * 2 ^ 20) c.max_batch_bytes;
  workers = unless_zero 4 c.workers;
  queue_capacity = unless_zero 100 c.queue_capacity;
  max_retries = unless_zero 3 c.max_retries;
  retry_backoff = unless_zero (100 * millisecond) c.retry_backoff;
  max_retry_backoff = unless_zero (2 * second) c.max_retry_backoff;
}

pub data PublisherFault : Type 0 where
  bad_endpoint no_slots bad_page_size bad_max_samples bad_max_bytes bad_workers : PublisherFault
  bad_capacity bad_retries bad_backoff : PublisherFault

abbrev pub is_positive : ℤ → Bool
is_positive (pos n) = ltb 0 n
is_positive (negsuc n) = false

abbrev pub below : ℤ → ℤ → Bool
below (pos a) (pos b) = ltb a b
below (pos a) (negsuc b) = false
below (negsuc a) (pos b) = true
below (negsuc a) (negsuc b) = ltb b a

-- `endpoint_is_valid` is the check of the endpoint's URL; `none` is the nil error.
unfoldable pub validate : (endpoint_is_valid : Bool) → PublisherSettings → Option PublisherFault
validate endpoint_is_valid c =
    if not endpoint_is_valid
    then some PublisherFault.bad_endpoint
    else if c.spread_slots == 0
    then some PublisherFault.no_slots
    else if not (is_positive c.page_size)
    then some PublisherFault.bad_page_size
    else if not (is_positive c.max_samples)
    then some PublisherFault.bad_max_samples
    else if not (is_positive c.max_batch_bytes)
    then some PublisherFault.bad_max_bytes
    else if not (is_positive c.workers)
    then some PublisherFault.bad_workers
    else if not (is_positive c.queue_capacity)
    then some PublisherFault.bad_capacity
    else if below c.max_retries (pos 0)
    then some PublisherFault.bad_retries
    else if below c.retry_backoff (pos 0)
        || not (is_positive c.max_retry_backoff)
        || below c.max_retry_backoff c.retry_backoff
    then some PublisherFault.bad_backoff
    else none

-- The counters `ackApplied`, `ackStale` and `ackNotFound` are left out: they add up what AckPublished
-- answers, which is a call of the value store.
pub record PublisherCounters : Type 0 where
  pub queued_batches : ℕ
  pub queued_samples : ℕ
  pub uncompressed_bytes : ℕ
  pub compressed_bytes : ℕ
  pub sent_batches : ℕ
  pub sent_samples : ℕ
  pub failed_batches : ℕ
  pub retry_attempts : ℕ
  pub permanent_failures : ℕ
  pub retryable_failures : ℕ
  pub coalesced_batches : ℕ
  pub coalesced_samples : ℕ
  pub queue_full : ℕ
  pub max_queued_batches : ℕ

-- `pending` is the activity's count; a reservation stands for a key of the source's map.
pub record Publisher : Type 0 where
  pub queue : LaneQueue
  pub started : Bool
  pub stopped : Bool
  pub last_requested : List Time
  pub last_cycle : List Time
  pub reservations : List PublishKey
  pub pending : ℕ
  pub counters : PublisherCounters

abbrev pub no_counts : PublisherCounters
no_counts = record {
  queued_batches = 0;
  queued_samples = 0;
  uncompressed_bytes = 0;
  compressed_bytes = 0;
  sent_batches = 0;
  sent_samples = 0;
  failed_batches = 0;
  retry_attempts = 0;
  permanent_failures = 0;
  retryable_failures = 0;
  coalesced_batches = 0;
  coalesced_samples = 0;
  queue_full = 0;
  max_queued_batches = 0;
}

unfoldable pub new_publisher : (slots workers capacity : ℕ) → Publisher
unfolding new_lane_queue
new_publisher slots workers capacity = record {
  queue = new_lane_queue workers capacity;
  started = false;
  stopped = false;
  last_requested = replicate slots 0;
  last_cycle = replicate slots 0;
  reservations = [];
  pending = 0;
  counters = no_counts;
}

-- `==` of the keys of the map.
unfoldable pub same_key : PublishKey → PublishKey → Bool
same_key a b =
    text_eq a.series_id b.series_id
    && a.generation == b.generation
    && a.timestamp_ms == b.timestamp_ms

unfoldable pub has_key : PublishKey → List PublishKey → Bool
unfolding same_key
has_key k [] = false
has_key k (j ∷ keys) = same_key k j || has_key k keys

unfoldable pub reserve : PublishKey → Publisher → Bool × Publisher
unfolding has_key
reserve k p =
    if has_key k p.reservations
    then (false, p)
    else (true, record p { reservations = k ∷ p.reservations })

unfoldable pub forget : List PublishKey → List PublishKey → List PublishKey
unfolding same_key
forget [] reservations = reservations
forget (k ∷ keys) reservations = forget keys (keep (λ j. not (same_key k j)) reservations)

unfoldable pub release_keys : List PublishKey → Publisher → Publisher
unfolding forget
release_keys keys p = record p { reservations = forget keys p.reservations }

-- An atomic uint64 counter.
abbrev pub bump : ℕ → ℕ → ℕ
bump counter n = (counter + n) % int64_mod

abbrev pub count_queued : EncodedBatch → ℕ → PublisherCounters → PublisherCounters
count_queued batch size c = record c {
  queued_batches = bump c.queued_batches 1;
  queued_samples = bump c.queued_samples batch.samples;
  uncompressed_bytes = bump c.uncompressed_bytes batch.uncompressed_bytes;
  compressed_bytes = bump c.compressed_bytes batch.compressed_bytes;
  max_queued_batches = if ltb c.max_queued_batches size then size else c.max_queued_batches;
}

-- The activity is counted before the queue is tried, and counted back where the batch is refused.
unfoldable pub admit :
    EncodedBatch → Publisher → LaneQueue × QueueAdmission → QueueAdmission × Publisher
unfolding release_keys
admit batch p (queue', QueueAdmission.accepted) = (
  QueueAdmission.accepted,
  record p {
    queue = queue';
    pending = p.pending + 1;
    counters = count_queued batch queue'.size p.counters;
  },
)
admit batch p (queue', QueueAdmission.obsolete) =
    (QueueAdmission.obsolete, release_keys batch.keys (record p { queue = queue' }))
admit batch p (queue', QueueAdmission.full) = (
  QueueAdmission.full,
  release_keys batch.keys (record p {
    queue = queue';
    counters = record p.counters { queue_full = bump p.counters.queue_full 1 };
  }),
)

unfoldable pub submit_batch : EncodedBatch → Publisher → QueueAdmission × Publisher
unfolding admit
submit_batch batch p = admit batch p (try_enqueue p.queue batch)

-- `keys` released, and the activity done with the batch.
unfoldable pub settle_batch : EncodedBatch → Publisher → Publisher
unfolding release_keys
settle_batch batch p = release_keys batch.keys (record p { pending = p.pending - 1 })

unfoldable pub settle_all : List EncodedBatch → Publisher → Publisher
unfolding settle_batch
settle_all [] p = p
settle_all (batch ∷ batches) p = settle_all batches (settle_batch batch p)

abbrev pub count_delivery : EncodedBatch → DeliveryResult → PublisherCounters → PublisherCounters
count_delivery batch delivery c =
    let retried : PublisherCounters = record c {
      retry_attempts =
          if ltb 1 delivery.attempts
          then bump c.retry_attempts (delivery.attempts - 1)
          else c.retry_attempts;
    } in
    elim delivery.class [
      | DeliveryClass.success ↦ record retried {
        sent_batches = bump c.sent_batches 1;
        sent_samples = bump c.sent_samples batch.samples;
      }
      | DeliveryClass.permanent ↦ record retried {
        failed_batches = bump c.failed_batches 1;
        permanent_failures = bump c.permanent_failures 1;
      }
      | DeliveryClass.retryable ↦ record retried {
        failed_batches = bump c.failed_batches 1;
        retryable_failures = bump c.retryable_failures 1;
      }
    ]

-- What a worker does after it sent a batch; the acknowledgements of a delivered one go to the cache.
unfoldable pub end_delivery : EncodedBatch → DeliveryResult → Publisher → Publisher
unfolding settle_batch
end_delivery batch delivery p =
    settle_batch batch (record p { counters = count_delivery batch delivery p.counters })

abbrev pub count_coalesced : List EncodedBatch → PublisherCounters → PublisherCounters
count_coalesced [] c = c
count_coalesced (batch ∷ batches) c = count_coalesced batches (record c {
  coalesced_batches = bump c.coalesced_batches 1;
  coalesced_samples = bump c.coalesced_samples batch.samples;
})

-- The start of PublishSlot: the batches of earlier cycles of the slot leave the queue. `false` where
-- a later cycle has begun.
unfoldable pub begin_cycle : ℕ → Time → Publisher → Bool × Publisher
unfolding settle_all
begin_cycle slot cycle p =
    let begun : Begun = begin_long_cycle p.queue slot (unix_milli cycle) in
    let queued : Publisher = record p { queue = begun.queue } in
    if begun.current
    then (
      true,
      settle_all begun.removed
          (record queued { counters = count_coalesced begun.removed p.counters }),
    )
    else (false, queued)

-- StopContext, less its waiting: a second call changes nothing.
unfoldable pub stop : Publisher → Publisher
unfolding settle_all
stop p =
    if p.stopped
    then p
    else let (queue', remaining) = close p.queue in
      settle_all remaining (record p { stopped = true; queue = queue' })

pub data Readiness : Type 0 where
  ready publisher_stopped publisher_not_started context_done : Readiness

unfoldable pub readiness : (context_is_done : Bool) → Publisher → Readiness
readiness context_is_done p =
    if p.stopped
    then Readiness.publisher_stopped
    else if not p.started
    then Readiness.publisher_not_started
    else if context_is_done
    then Readiness.context_done
    else Readiness.ready

unfoldable pub set_time : ℕ → Time → List Time → List Time
set_time i t [] = []
set_time zero t (u ∷ us) = t ∷ us
set_time (suc i) t (u ∷ us) = u ∷ set_time i t us

-- `Truncate(time.Millisecond)`, from the zero time.
abbrev pub truncated : Time → Time
truncated t = t / millisecond * millisecond

-- The cycle of a slot for a requested time, and the publisher that remembers both.
unfoldable pub normalize_cycle : ℕ → Time → Publisher → Time × Publisher
unfolding set_time
normalize_cycle slot requested p =
    let at : Time = truncated requested in
    let last : Time = get_or p.last_cycle slot 0 in
    if get_or p.last_requested slot 0 == at
    then (last, p)
    else let cycle : Time = if not (last == 0) && leb at last then last + millisecond else at in
      (
        cycle,
        record p {
          last_requested = set_time slot at p.last_requested;
          last_cycle = set_time slot cycle p.last_cycle;
        },
      )
