-- ===== src/Push/Encoder/Bounds.antt =====
-- internal/promwrap/batch_encoder.go: the limits of a batch, and its size before it is encoded.
use zabbix_exporter.Prelude.{
  ℕ, zero, suc, ◌+◌, ◌/◌, ◌^◌, ◌≤◌, ◌<◌, ◌≡◌, refl, subst, sym, ap, ◌∙◌, ◌⊎◌, inl, inr, false, List,
  [], ◌∷◌, ◌++◌, Option, some, ltb, leb, length, length-append, total, total-append, Bool-cases,
  arith,
}
use zabbix_exporter.Push.Queue.{EncodedBatch}
use zabbix_exporter.Push.Encoder.{
  TimeSeries, EncodeSeries, BatchBuilder, Added, Encoded, varint_from, varint_size,
  repeated_message_size, entry_bytes, series_of, take_sample, add, encode, encode_raw, batch_of,
  is_empty,
}

-- Within its limits, with one key for each series, and with the size of its series.
abbrev pub IsWithin : (TimeSeries → ℕ) → BatchBuilder → Type 0
IsWithin size b =
    (length b.series ≤ b.encoder.max_samples)
    × ((b.encoded_bytes ≤ b.encoder.max_bytes)
        × ((length b.keys ≡ length b.series)
            × (b.encoded_bytes ≡ total (λ s. repeated_message_size (size s)) b.series)))

builder_of : BatchBuilder → Added → BatchBuilder
builder_of b (Added.taken c) = c
builder_of b Added.no_room = b
builder_of b Added.too_large = b

taken_inj : (b c : BatchBuilder) → Added.taken b ≡ Added.taken c → b ≡ c
unfolding builder_of
taken_inj b c h = ap (builder_of b) h

no_room_not : (c : BatchBuilder) → ¬ (Added.no_room ≡ Added.taken c)
no_room_not c h = cc

too_large_not : (c : BatchBuilder) → ¬ (Added.too_large ≡ Added.taken c)
too_large_not c h = cc

module _ (size : TimeSeries → ℕ) where
  -- A sample is taken only within the limits.
  pub taken_within :
      (b c : BatchBuilder) (sample : EncodeSeries)
      → add size b sample ≡ Added.taken c
      → (take_sample size b sample ≡ c)
        × ((leb b.encoder.max_samples (length b.series) ≡ false)
            × (ltb b.encoder.max_bytes (b.encoded_bytes + entry_bytes size sample) ≡ false))
  unfolding add
  taken_within b c sample h = elim (Bool-cases (leb b.encoder.max_samples (length b.series))) [
    | inl t ↦ absurd (no_room_not c (rw (t, add) at h))
    | inr few ↦
        let h1 = rw (few, add) at h in
        elim (Bool-cases (ltb b.encoder.max_bytes (entry_bytes size sample))) [
          | inl t ↦ absurd (too_large_not c (rw t at h1))
          | inr small ↦
              let h2 = rw small at h1 in
              elim (Bool-cases
                (ltb b.encoder.max_bytes (b.encoded_bytes + entry_bytes size sample))) [
                  | inl t ↦ absurd (no_room_not c (rw t at h2))
                  | inr fits ↦
                      (taken_inj (take_sample size b sample) c (rw fits at h2), (few, fits))
                ]
        ]
  ]

  -- A sample that is taken leaves the builder within its limits, if it was within them, and puts the
  -- sample's key behind the others.
  pub add-IsWithin :
      (b c : BatchBuilder) (sample : EncodeSeries)
      → add size b sample ≡ Added.taken c
      → IsWithin size b
      → IsWithin size c × (c.keys ≡ b.keys ++ sample.key ∷ [])
  unfolding take_sample entry_bytes
  add-IsWithin b c sample h w =
      let (same, (few, fits)) = taken_within b c sample h in
      let more = length-append b.series (series_of sample ∷ []) in
      subst (λ x. IsWithin size x × (x.keys ≡ b.keys ++ sample.key ∷ [])) same
        (
          (
            ground (arith, more),
            (
              ground arith,
              (
                omega (arith, w.1.1.0, more, length-append b.keys (sample.key ∷ [])),
                omega (
                  arith,
                  w.1.1.1,
                  total-append (λ s. repeated_message_size (size s)) b.series
                      (series_of sample ∷ []),
                ),
              ),
            ),
          ),
          refl,
        )

  -- A builder within its limits whose series the encoder marshals, to the sum of the sizes that
  -- the fields of the message have, is encoded, if it is not empty: the batch has the builder's keys
  -- and acknowledgements, one sample for each of its series, and at most `max_bytes` bytes before
  -- compression.
  pub encode_fits :
      (marshal : List TimeSeries → Option (List ℕ)) (compress : List ℕ → List ℕ) (b : BatchBuilder)
      → ((xs : List TimeSeries)
          → (raw : List ℕ) × (marshal xs ≡ some raw)
            × (length raw ≡ total (λ s. repeated_message_size (size s)) xs))
      → IsWithin size b
      → is_empty b ≡ false
      → (batch : EncodedBatch) × (encode marshal compress b ≡ Encoded.batch batch)
        × ((batch.keys ≡ b.keys)
            × ((batch.acks ≡ b.acks)
                × ((batch.samples ≡ length b.series)
                    × ((batch.uncompressed_bytes ≡ b.encoded_bytes)
                        × (batch.uncompressed_bytes ≤ b.encoder.max_bytes)))))
  unfolding encode encode_raw batch_of
  encode_fits marshal compress b marshals w some_series =
      let (raw, done, exact) = marshals b.series in
      let fits : ltb b.encoder.max_bytes (length raw) ≡ false =
        ground (arith, exact, w.1.0, w.1.1.1) in
      (
        batch_of marshal compress b raw,
        rw some_series (rw done (rw fits refl)),
        (
          refl,
          (refl, (refl, (omega (arith, exact, w.1.1.1), omega (arith, exact, w.1.1.1, w.1.0)))),
        ),
      )

power_pos : (n : ℕ) → 0 < 128 ^ n
power_pos zero = omega arith
power_pos (suc n) = omega (arith, power_pos n)

varint_from_bounds :
    (fuel value size : ℕ)
    → value < 128 ^ suc fuel
    → (j : ℕ) × (varint_from fuel value size ≡ size + j)
      × ((value < 128 ^ suc j) × ((j ≡ 0) ⊎ (128 ^ j ≤ value)))
unfolding varint_from
varint_from_bounds zero value size h = (0, omega arith, (h, inl refl))
varint_from_bounds (suc fuel) value size h = elim (Bool-cases (leb 128 value)) [
  | inr f ↦ rw f (0, omega arith, (ground arith, inl refl))
  | inl t ↦
      let (j, e, (less, least)) =
        varint_from_bounds fuel (value / 128) (size + 1) (omega (arith, h)) in
      let big : 128 ≤ value = ground arith in
      rw t (
        suc j,
        omega (arith, e),
        (
          omega (arith, less),
          inr (elim least [
            | inl z ↦ omega (arith, ap (λ i. 128 ^ suc i) z, big)
            | inr m ↦ omega (arith, m)
          ]),
        ),
      )
]

opened : (value : ℕ) → varint_size value ≡ varint_from 10 value 1
unfolding varint_size
opened value = refl

one_more : (j : ℕ) → 1 + j ≡ suc j
one_more j = omega arith

pow_below : (j n : ℕ) → 128 ^ j < 128 ^ n → j < n
pow_below zero zero h = absurd (omega arith)
pow_below zero (suc n) h = omega arith
pow_below (suc j) zero h = absurd (omega (arith, power_pos j))
pow_below (suc j) (suc n) h = omega (arith, pow_below j n (omega arith))

-- The size of a uint64 is the least positive number of groups of seven bits that holds it.
pub varint_size_least :
    (value : ℕ)
    → value < 2 ^ 64
    → (0 < varint_size value)
      × ((value < 128 ^ varint_size value)
          × ((n : ℕ) → 0 < n → value < 128 ^ n → varint_size value ≤ n))
varint_size_least value h =
    let (j, e, (less, least)) = varint_from_bounds 10 value 1 (omega arith) in
    let size : varint_size value ≡ suc j = opened value ∙ e ∙ one_more j in
    (
      omega (arith, size),
      (
        subst (λ n. value < 128 ^ n) (sym size) less,
        λ n p below. elim least [
          | inl z ↦ omega (arith, size, z)
          | inr m ↦ omega (arith, size, pow_below j n (omega (arith, m, below)))
        ],
      ),
    )
