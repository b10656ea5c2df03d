-- ===== src/Push/Batcher.antt =====
-- internal/promwrap/publisher.go: the page batcher, which fills one builder for each lane and policy
-- and submits the builders that are full. `size`, `marshal` and `compress` are as in the encoder.
pub mod Reserved
use zabbix_exporter.Prelude.{
  ℕ, zero, suc, ◌+◌, ◌*◌, String, Bool, true, false, List, [], ◌∷◌, ◌++◌, Option, none, some, ltb,
  ◌==◌, ◌||◌, if◌then◌else◌, length, get_or, replicate,
}
use zabbix_exporter.Time.{Time, unix_milli}
use zabbix_exporter.Cache.State.{PublishPolicy}
use zabbix_exporter.Push.Queue.{PublishKey, EncodedBatch, QueueAdmission}
use zabbix_exporter.Push.Publisher.{Publisher, reserve, release_keys, submit_batch}
use zabbix_exporter.Push.Encoder.{
  EncodeSeries, TimeSeries, BatchEncoder, BatchBuilder, Added, Encoded, new_builder, add, encode,
  is_empty,
}

-- `has_oversized` is whether there is a first error of a sample that is too large.
pub record PageProcessResult : Type 0 where
  pub batches_queued : ℕ
  pub samples_queued : ℕ
  pub skipped_metadata : ℕ
  pub already_pending : ℕ
  pub oversized_samples : ℕ
  pub has_oversized : Bool

unfoldable pub merge_page_process_result : PageProcessResult → PageProcessResult → PageProcessResult
merge_page_process_result dst source = record {
  batches_queued = dst.batches_queued + source.batches_queued;
  samples_queued = dst.samples_queued + source.samples_queued;
  skipped_metadata = dst.skipped_metadata + source.skipped_metadata;
  already_pending = dst.already_pending + source.already_pending;
  oversized_samples = dst.oversized_samples + source.oversized_samples;
  has_oversized = dst.has_oversized || source.has_oversized;
}

-- The builders stand at twice the lane plus the policy.
pub record PageBatcher : Type 0 where
  pub publisher : Publisher
  pub builders : List (Option BatchBuilder)
  pub result : PageProcessResult

abbrev pub policy_index : PublishPolicy → ℕ
policy_index PublishPolicy.source_timestamp = 0
policy_index PublishPolicy.cycle_timestamp = 1

abbrev pub no_results : PageProcessResult
no_results = record {
  batches_queued = 0;
  samples_queued = 0;
  skipped_metadata = 0;
  already_pending = 0;
  oversized_samples = 0;
  has_oversized = false;
}

unfoldable pub new_page_batcher : ℕ → Publisher → PageBatcher
new_page_batcher workers p = record {
  publisher = p;
  builders = replicate (workers * 2) none;
  result = no_results;
}

unfoldable pub set_builder :
    ℕ → Option BatchBuilder → List (Option BatchBuilder) → List (Option BatchBuilder)
set_builder i b [] = []
set_builder zero b (c ∷ cs) = b ∷ cs
set_builder (suc i) b (c ∷ cs) = c ∷ set_builder i b cs

-- `cleanup`: the keys of the builders are released, and the builders are gone.
unfoldable pub release_builders : List (Option BatchBuilder) → Publisher → Publisher
unfolding release_keys
release_builders [] p = p
release_builders (none ∷ builders) p = release_builders builders p
release_builders (some b ∷ builders) p = release_builders builders (release_keys b.keys p)

abbrev pub vacant : List (Option BatchBuilder) → List (Option BatchBuilder)
vacant [] = []
vacant (b ∷ builders) = none ∷ vacant builders

unfoldable pub cleanup : PageBatcher → PageBatcher
unfolding release_builders
cleanup t = record t {
  publisher = release_builders t.builders t.publisher;
  builders = vacant t.builders;
}

pub data BatcherError : Type 0 where
  no_error encode_failed stopped queue_full does_not_fit : BatcherError

-- The sample is given up: its key is released, and so is every builder.
unfoldable pub abandon : BatcherError → PublishKey → PageBatcher → BatcherError × PageBatcher
unfolding cleanup
abandon error key t =
    (error, cleanup (record t { publisher = release_keys (key ∷ []) t.publisher }))

abbrev pub count_batch : EncodedBatch → PageProcessResult → PageProcessResult
count_batch batch r = record r {
  batches_queued = r.batches_queued + 1;
  samples_queued = r.samples_queued + batch.samples;
}

module _ (size : TimeSeries → ℕ) (marshal : List TimeSeries → Option (List ℕ))
    (compress : List ℕ → List ℕ) (encoder : BatchEncoder) (slot : ℕ) (cycle : Time) where
  unfoldable pub fresh_builder : PublishPolicy → ℕ → BatchBuilder
  unfolding new_builder
  fresh_builder policy lane = new_builder encoder policy slot (unix_milli cycle) lane

  -- The builder at an index, or a new one.
  unfoldable pub builder_at : PublishPolicy → ℕ → PageBatcher → BatchBuilder
  unfolding fresh_builder
  builder_at policy lane t = elim (get_or t.builders (lane * 2 + policy_index policy) none) [
    | none ↦ fresh_builder policy lane
    | some b ↦ b
  ]

  abbrev pub put_builder : PublishPolicy → ℕ → Option BatchBuilder → PageBatcher → PageBatcher
  put_builder policy lane b t = record t {
    builders = set_builder (lane * 2 + policy_index policy) b t.builders;
  }

  -- The sample goes to a new builder, after the full one was queued.
  unfoldable pub restart :
      PublishPolicy → ℕ → EncodeSeries → PageBatcher → BatcherError × PageBatcher
  unfolding abandon fresh_builder
  restart policy lane sample t = elim (add size (fresh_builder policy lane) sample) [
    | Added.taken b ↦ (BatcherError.no_error, put_builder policy lane (some b) t)
    | Added.no_room ↦
        abandon BatcherError.does_not_fit sample.key
          (put_builder policy lane (some (fresh_builder policy lane)) t)
    | Added.too_large ↦
        abandon BatcherError.does_not_fit sample.key
          (put_builder policy lane (some (fresh_builder policy lane)) t)
  ]

  -- A full builder's batch goes to the queue, and its place is empty.
  unfoldable pub submit :
      PublishPolicy → ℕ → EncodedBatch → PageBatcher → QueueAdmission × PageBatcher
  unfolding submit_batch
  submit policy lane batch t =
      let (admission, p) = submit_batch batch t.publisher in
      (admission, put_builder policy lane none (record t { publisher = p }))

  unfoldable pub roll_over :
      PublishPolicy → ℕ → EncodeSeries → EncodedBatch → PageBatcher → BatcherError × PageBatcher
  unfolding submit restart abandon
  roll_over policy lane sample batch t =
      let (admission, u) = submit policy lane batch t in
      elim admission [
        | QueueAdmission.accepted ↦
            restart policy lane sample (record u { result = count_batch batch u.result })
        | QueueAdmission.obsolete ↦ abandon BatcherError.stopped sample.key u
        | QueueAdmission.full ↦ abandon BatcherError.queue_full sample.key u
      ]

  -- The sample's key is reserved. A full builder without a sample, which has no batch, would take a
  -- limit of no samples, which the settings exclude.
  unfoldable pub add_reserved :
      PublishPolicy → ℕ → EncodeSeries → PageBatcher → BatcherError × PageBatcher
  unfolding roll_over abandon builder_at
  add_reserved policy lane sample t =
      let b : BatchBuilder = builder_at policy lane t in
      elim (add size b sample) [
        | Added.taken c ↦ (BatcherError.no_error, put_builder policy lane (some c) t)
        | Added.too_large ↦ (
          BatcherError.no_error,
          record (put_builder policy lane (some b) t) {
            publisher = release_keys (sample.key ∷ []) t.publisher;
            result = record t.result {
              oversized_samples = t.result.oversized_samples + 1;
              has_oversized = true;
            };
          },
        )
        | Added.no_room ↦ elim (encode marshal compress b) [
          | Encoded.batch batch ↦ roll_over policy lane sample batch t
          | Encoded.refused ↦
              abandon BatcherError.encode_failed sample.key (put_builder policy lane (some b) t)
          | Encoded.nothing ↦
              abandon BatcherError.encode_failed sample.key (put_builder policy lane (some b) t)
        ]
      ]

  unfoldable pub add_sample :
      PublishPolicy → ℕ → EncodeSeries → PageBatcher → BatcherError × PageBatcher
  unfolding add_reserved
  add_sample policy lane sample t =
      let (fresh, p) = reserve sample.key t.publisher in
      if fresh then add_reserved policy lane sample (record t { publisher = p }) else (
        BatcherError.no_error,
        record t { result = record t.result { already_pending = t.result.already_pending + 1 } },
      )

  -- The loop of `finish` over lanes and policies, which is the order of the builders.
  unfoldable pub finish_from : ℕ → ℕ → PageBatcher → BatcherError × PageBatcher
  unfolding cleanup submit_batch
  finish_from zero index t = (BatcherError.no_error, t)
  finish_from (suc left) index t = elim (get_or t.builders index none) [
    | none ↦ finish_from left (suc index) t
    | some b ↦
        if is_empty b then finish_from left (suc index) t else elim (encode marshal compress b) [
          | Encoded.refused ↦ (BatcherError.encode_failed, cleanup t)
          | Encoded.nothing ↦ (BatcherError.encode_failed, cleanup t)
          | Encoded.batch batch ↦
              let (admission, p) = submit_batch batch t.publisher in
              let u : PageBatcher = record t {
                publisher = p;
                builders = set_builder index none t.builders;
              } in
              elim admission [
                | QueueAdmission.accepted ↦
                    finish_from left (suc index) (record u { result = count_batch batch u.result })
                | QueueAdmission.obsolete ↦ (BatcherError.stopped, cleanup u)
                | QueueAdmission.full ↦ (BatcherError.queue_full, cleanup u)
              ]
        ]
  ]

  unfoldable pub finish : PageBatcher → BatcherError × PageBatcher
  unfolding finish_from
  finish t = finish_from (length t.builders) 0 t
