-- ===== src/Tests/Encoded.antt =====
-- The theorems on the batch encoder, with series of three bytes.
use zabbix_exporter.Prelude.{
  ℕ, zero, suc, ◌^◌, ◌<◌, ◌≤◌, ◌≡◌, refl, List, [], ◌∷◌, ◌++◌, none, some, length, total, replicate,
  arith,
}
use zabbix_exporter.Cache.State.{PublishPolicy}
use zabbix_exporter.Push.Queue.{PublishKey, EncodedBatch}
use zabbix_exporter.Push.Encoder.{
  TimeSeries, EncodeSeries, BatchBuilder, Added, Encoded, varint_size, new_builder, add, encode,
  series_of, repeated_message_size,
}
use zabbix_exporter.Push.Encoder.Bounds.{IsWithin, add-IsWithin, encode_fits, varint_size_least}
use zabbix_exporter.Tests.Scheduled.{noon}

abbrev pub size : TimeSeries → ℕ
size s = 3

abbrev pub key_a : PublishKey
key_a = record { series_id = "a"; generation = 1; timestamp_ms = 0 }

abbrev pub sample : EncodeSeries
sample = record {
  series_id = "a";
  labels = [];
  value = 0;
  timestamp = noon;
  ack = none;
  key = key_a;
}

abbrev fresh : BatchBuilder
fresh = new_builder (record { max_samples = 2; max_bytes = 9 }) PublishPolicy.source_timestamp 1 0 0

abbrev with_a : BatchBuilder
with_a = record {
  encoder = record { max_samples = 2; max_bytes = 9 };
  policy = PublishPolicy.source_timestamp;
  slot = 1;
  cycle_ms = 0;
  lane = 0;
  series = series_of sample ∷ [];
  acks = [];
  keys = key_a ∷ [];
  encoded_bytes = 5;
}

taken_by : add size fresh sample ≡ Added.taken with_a
unfolding add new_builder repeated_message_size
taken_by = refl

fresh-IsWithin : IsWithin size fresh
unfolding new_builder
fresh-IsWithin = (omega arith, (omega arith, (refl, refl)))

add-IsWithin_example : IsWithin size with_a × (with_a.keys ≡ fresh.keys ++ sample.key ∷ [])
add-IsWithin_example = add-IsWithin size fresh with_a sample taken_by fresh-IsWithin

with_a-IsWithin : IsWithin size with_a
with_a-IsWithin = (add-IsWithin size fresh with_a sample taken_by fresh-IsWithin).0

abbrev pub marshalled : List TimeSeries → List ℕ
marshalled xs = replicate (total (λ s. repeated_message_size (size s)) xs) 0

length-replicate : (n : ℕ) → length (replicate {A = ℕ} n 0) ≡ n
length-replicate zero = refl
length-replicate (suc n) = omega (arith, length-replicate n)

encode_fits_example :
    (batch : EncodedBatch) × (encode (λ xs. some (marshalled xs)) (λ raw. raw) with_a
      ≡ Encoded.batch batch)
    × ((batch.keys ≡ with_a.keys)
        × ((batch.acks ≡ with_a.acks)
            × ((batch.samples ≡ length with_a.series)
                × ((batch.uncompressed_bytes ≡ with_a.encoded_bytes)
                    × (batch.uncompressed_bytes ≤ with_a.encoder.max_bytes)))))
encode_fits_example =
    encode_fits size (λ xs. some (marshalled xs)) (λ raw. raw) with_a
      (λ xs.
        (marshalled xs, refl, length-replicate (total (λ s. repeated_message_size (size s)) xs)))
      with_a-IsWithin refl

varint_size_least_example :
    (0 < varint_size 300)
    × ((300 < 128 ^ varint_size 300) × ((n : ℕ) → 0 < n → 300 < 128 ^ n → varint_size 300 ≤ n))
varint_size_least_example = varint_size_least 300 (omega arith)
