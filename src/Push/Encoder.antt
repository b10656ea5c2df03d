-- ===== src/Push/Encoder.antt =====
-- internal/promwrap/batch_encoder.go: batches bounded in samples and in bytes. Of the protocol
-- buffers, `size` and `marshal` are the generated Size and Marshal, and `compress` is snappy.Encode.
pub mod Bounds
use zabbix_exporter.Prelude.{
  ℕ, zero, suc, ◌+◌, ◌/◌, String, Bool, true, false, not, List, [], ◌∷◌, ◌++◌, Option, none, some,
  ℤ, pos, negsuc, ltb, leb, ◌==◌, if◌then◌else◌, length,
}
use zabbix_exporter.Time.{Time, unix_milli}
use zabbix_exporter.Metadata.Types.{Label}
use zabbix_exporter.Cache.State.{PublishPolicy}
use zabbix_exporter.Cache.Values.{PublishAck}
use zabbix_exporter.Push.Queue.{PublishKey, EncodedBatch}

pub record EncodeSeries : Type 0 where
  pub series_id : String
  pub labels : List Label
  pub value : ℕ
  pub timestamp : Time
  pub ack : Option PublishAck
  pub key : PublishKey

-- prompb.TimeSeries with its one sample.
pub record TimeSeries : Type 0 where
  pub labels : List Label
  pub value : ℕ
  pub timestamp_ms : ℕ

pub record BatchEncoder : Type 0 where
  pub max_samples : ℕ
  pub max_bytes : ℕ

abbrev pub positive_part : ℤ → ℕ
positive_part (pos n) = n
positive_part (negsuc n) = 0

-- `none` where a limit is not positive.
unfoldable pub new_batch_encoder : ℤ → ℤ → Option BatchEncoder
new_batch_encoder max_samples max_bytes =
    if positive_part max_samples == 0
    then none
    else if positive_part max_bytes == 0
    then none
    else some
        (record { max_samples = positive_part max_samples; max_bytes = positive_part max_bytes })

pub record BatchBuilder : Type 0 where
  pub encoder : BatchEncoder
  pub policy : PublishPolicy
  pub slot : ℕ
  pub cycle_ms : ℕ
  pub lane : ℕ
  pub series : List TimeSeries
  pub acks : List PublishAck
  pub keys : List PublishKey
  pub encoded_bytes : ℕ

unfoldable pub new_builder : BatchEncoder → PublishPolicy → ℕ → ℕ → ℕ → BatchBuilder
new_builder encoder policy slot cycle_ms lane = record {
  encoder = encoder;
  policy = policy;
  slot = slot;
  cycle_ms = cycle_ms;
  lane = lane;
  series = [];
  acks = [];
  keys = [];
  encoded_bytes = 0;
}

abbrev pub is_empty : BatchBuilder → Bool
is_empty b = length b.series == 0

-- The loop of varintSize, on fuel: each round divides the value by 128.
unfoldable pub varint_from : ℕ → ℕ → ℕ → ℕ
varint_from zero value size = size
varint_from (suc fuel) value size =
    let rest : ℕ = varint_from fuel (value / 128) (size + 1) in if leb 128 value then rest else size

-- A uint64 has at most ten groups of seven bits.
unfoldable pub varint_size : ℕ → ℕ
unfolding varint_from
varint_size value = varint_from 10 value 1

unfoldable pub repeated_message_size : ℕ → ℕ
unfolding varint_size
repeated_message_size message_bytes = 1 + varint_size message_bytes + message_bytes

-- What `add` returns: the sample was taken, it does not fit in this batch, or in none.
pub data Added : Type 0 where
  taken : BatchBuilder → Added
  no_room too_large : Added

unfoldable pub series_of : EncodeSeries → TimeSeries
series_of sample = record {
  labels = sample.labels;
  value = sample.value;
  timestamp_ms = unix_milli sample.timestamp;
}

-- The error is `refused`; an empty builder has no batch.
pub data Encoded : Type 0 where
  refused nothing : Encoded
  batch : EncodedBatch → Encoded

module _ (size : TimeSeries → ℕ) where
  unfoldable pub entry_bytes : EncodeSeries → ℕ
  unfolding series_of repeated_message_size
  entry_bytes sample = repeated_message_size (size (series_of sample))

  -- The builder with a sample that it has room for.
  unfoldable pub take_sample : BatchBuilder → EncodeSeries → BatchBuilder
  unfolding entry_bytes series_of
  take_sample b sample = record b {
    series = b.series ++ series_of sample ∷ [];
    acks = elim sample.ack [ none ↦ b.acks | some ack ↦ b.acks ++ ack ∷ [] ];
    keys = b.keys ++ sample.key ∷ [];
    encoded_bytes = b.encoded_bytes + entry_bytes sample;
  }

  unfoldable pub add : BatchBuilder → EncodeSeries → Added
  unfolding entry_bytes take_sample
  add b sample =
      if leb b.encoder.max_samples (length b.series)
      then Added.no_room
      else if ltb b.encoder.max_bytes (entry_bytes sample)
      then Added.too_large
      else if ltb b.encoder.max_bytes (b.encoded_bytes + entry_bytes sample)
      then Added.no_room
      else Added.taken (take_sample b sample)

module _ (marshal : List TimeSeries → Option (List ℕ)) (compress : List ℕ → List ℕ) where
  unfoldable pub batch_of : BatchBuilder → List ℕ → EncodedBatch
  batch_of b raw = record {
    body = compress raw;
    acks = b.acks;
    keys = b.keys;
    policy = b.policy;
    slot = b.slot;
    cycle_timestamp_ms = b.cycle_ms;
    lane = b.lane;
    samples = length b.series;
    uncompressed_bytes = length raw;
    compressed_bytes = length (compress raw);
  }

  unfoldable pub encode_raw : BatchBuilder → List ℕ → Encoded
  unfolding batch_of
  encode_raw b raw =
      if ltb b.encoder.max_bytes (length raw)
      then Encoded.refused
      else Encoded.batch (batch_of b raw)

  unfoldable pub encode : BatchBuilder → Encoded
  unfolding encode_raw
  encode b =
      if is_empty b
      then Encoded.nothing
      else elim (marshal b.series) [ none ↦ Encoded.refused | some raw ↦ encode_raw b raw ]
