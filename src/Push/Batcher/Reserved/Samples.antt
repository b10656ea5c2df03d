-- ===== src/Push/Batcher/Reserved/Samples.antt =====
-- internal/promwrap/publisher.go: what the addition of a sample does to the account of reservations.
use zabbix_exporter.Prelude.{
  ℕ, zero, suc, ◌+◌, ◌<◌, ◌≡◌, ◌⊎◌, refl, sym, subst, ap, ◌∙◌, inl, inr, true, List, [], ◌∷◌,
  Option, none, some, All, length, get_or, total-append, arith, Bool-cases, Option-cases,
}
use zabbix_exporter.Time.{Time}
use zabbix_exporter.Cache.State.{PublishPolicy}
use zabbix_exporter.Push.Queue.{PublishKey, EncodedBatch, QueueAdmission}
use zabbix_exporter.Push.Publisher.{Publisher, reserve, has_key, release_keys}
use zabbix_exporter.Push.Encoder.{
  EncodeSeries, TimeSeries, BatchEncoder, BatchBuilder, Added, Encoded, new_builder, add, encode,
  take_sample,
}
use zabbix_exporter.Push.Encoder.Bounds.{taken_within}
use zabbix_exporter.Push.Batcher.{
  PageBatcher, BatcherError, set_builder, fresh_builder, builder_at, put_builder, restart, submit,
  roll_over, add_reserved, add_sample, count_batch,
}
use zabbix_exporter.Push.Batcher.Reserved.{
  encoded_from, place, place_lt, IsLaneBelow, IsReserved, get_or-IsLaneBelow,
  put_builder-IsReserved, abandon-IsReserved, submit_at-IsReserved,
}
use zabbix_exporter.Push.Batcher.Reserved.Keys.{one_key, key_count}
use zabbix_exporter.Push.Batcher.Reserved.Account.{
  builder_keys, held, recount, release_keys-IsAccountedFor, reserve-IsAccountedFor,
}

pub admission_cases :
    (a : QueueAdmission)
    → (a ≡ QueueAdmission.accepted) ⊎ ((a ≡ QueueAdmission.obsolete) ⊎ (a ≡ QueueAdmission.full))
admission_cases QueueAdmission.accepted = inl refl
admission_cases QueueAdmission.obsolete = inr (inl refl)
admission_cases QueueAdmission.full = inr (inr refl)

emptied :
    (i : ℕ) (builders : List (Option BatchBuilder))
    → get_or (set_builder i none builders) i none ≡ none
unfolding set_builder
emptied i [] = refl
emptied zero (b ∷ builders) = refl
emptied (suc i) (b ∷ builders) = emptied i builders

reserve_queue : (key : PublishKey) (p : Publisher) → (reserve key p).1.queue ≡ p.queue
unfolding reserve
reserve_queue key p = elim (Bool-cases (has_key key p.reservations)) [
  | inl t ↦ rw t refl
  | inr f ↦ rw f refl
]

last_key : (k key : PublishKey) (n : ℕ) → n + (one_key k key + 0) ≡ n + one_key k key
last_key k key n = omega arith

Added-cases :
    (a : Added)
    → ((c : BatchBuilder) × (a ≡ Added.taken c)) ⊎ ((a ≡ Added.no_room) ⊎ (a ≡ Added.too_large))
Added-cases (Added.taken c) = inl (c, refl)
Added-cases Added.no_room = inr (inl refl)
Added-cases Added.too_large = inr (inr refl)

pub Encoded-cases :
    (e : Encoded)
    → ((b : EncodedBatch) × (e ≡ Encoded.batch b)) ⊎ ((e ≡ Encoded.refused) ⊎ (e ≡ Encoded.nothing))
Encoded-cases (Encoded.batch b) = inl (b, refl)
Encoded-cases Encoded.refused = inr (inl refl)
Encoded-cases Encoded.nothing = inr (inr refl)

module _ (size : TimeSeries → ℕ) (marshal : List TimeSeries → Option (List ℕ))
    (compress : List ℕ → List ℕ) (encoder : BatchEncoder) (slot : ℕ) (cycle : Time) (workers : ℕ)
    (c : PublishKey → ℕ) (policy : PublishPolicy) (lane : ℕ) (sample : EncodeSeries)
    (lt : lane < workers) where
  taken_keys :
      (b d : BatchBuilder)
      → add size b sample ≡ Added.taken d
      → ((k : PublishKey) → key_count k d.keys ≡ key_count k b.keys + one_key k sample.key)
        × (d.lane ≡ b.lane)
  unfolding take_sample
  taken_keys b d h =
      let same = (taken_within size b d sample h).0 in
      (
        λ k.
            ap (λ x. key_count k x.keys) (sym same)
            ∙ total-append (one_key k) b.keys (sample.key ∷ [])
            ∙ last_key k sample.key (key_count k b.keys),
        sym (ap (λ x. x.lane) same),
      )

  fresh_keys : (fresh_builder size marshal compress encoder slot cycle policy lane).keys ≡ []
  unfolding fresh_builder new_builder
  fresh_keys = refl

  fresh_lane : (fresh_builder size marshal compress encoder slot cycle policy lane).lane ≡ lane
  unfolding fresh_builder new_builder
  fresh_lane = refl

  restart-IsReserved :
      (t : PageBatcher)
      → get_or t.builders (place policy lane) none ≡ none
      → IsReserved workers (λ k. one_key k sample.key + c k) t
      → IsReserved workers c
          (restart size marshal compress encoder slot cycle policy lane sample t).1
  unfolding restart
  restart-IsReserved t empty h =
      let new : BatchBuilder = fresh_builder size marshal compress encoder slot cycle policy lane in
      let i = place_lt policy lane workers lt in
      let old = λ (k : PublishKey). ap (builder_keys k) empty in
      let no_keys = λ (k : PublishKey). ap (key_count k) fresh_keys in
      let below : new.lane < workers = omega (arith, fresh_lane) in
      let kept =
        put_builder-IsReserved workers (λ k. one_key k sample.key + c k)
          (λ k. one_key k sample.key + c k) (place policy lane) (some new) t i below
          (λ k. omega (arith, old k, no_keys k)) h in
      elim (Added-cases (add size new sample)) [
        | inl (d, e) ↦
            let (keys, same_lane) = taken_keys new d e in
            rw (e, restart)
              (put_builder-IsReserved workers c (λ k. one_key k sample.key + c k)
                (place policy lane) (some d) t i (omega (arith, same_lane, fresh_lane))
                (λ k. omega (arith, old k, keys k, no_keys k)) h)
        | inr (inl e) ↦
            rw (e, restart)
              (abandon-IsReserved workers c BatcherError.does_not_fit sample.key _ kept)
        | inr (inr e) ↦
            rw (e, restart)
              (abandon-IsReserved workers c BatcherError.does_not_fit sample.key _ kept)
      ]

  submit-IsReserved :
      (d : PublishKey → ℕ) (batch : EncodedBatch) (t : PageBatcher)
      → ((k : PublishKey)
          → key_count k batch.keys ≡ builder_keys k (get_or t.builders (place policy lane) none))
      → batch.lane < workers
      → IsReserved workers d t
      → IsReserved workers d (submit size marshal compress encoder slot cycle policy lane batch t).1
  unfolding submit IsReserved
  submit-IsReserved d batch t keys below h =
      submit_at-IsReserved workers d (place policy lane) batch t (place_lt policy lane workers lt)
        keys below h

  roll_over-IsReserved :
      (batch : EncodedBatch) (t : PageBatcher)
      → ((k : PublishKey)
          → key_count k batch.keys ≡ builder_keys k (get_or t.builders (place policy lane) none))
      → batch.lane < workers
      → IsReserved workers (λ k. one_key k sample.key + c k) t
      → IsReserved workers c
          (roll_over size marshal compress encoder slot cycle policy lane sample batch t).1
  unfolding roll_over submit IsReserved
  roll_over-IsReserved batch t keys below h =
      let u : QueueAdmission × PageBatcher =
        submit size marshal compress encoder slot cycle policy lane batch t in
      let h' = submit-IsReserved (λ k. one_key k sample.key + c k) batch t keys below h in
      elim (admission_cases u.0) [
        | inl e ↦
            rw (e, roll_over)
              (restart-IsReserved (record u.1 { result = count_batch batch u.1.result })
                (emptied (place policy lane) t.builders) h')
        | inr (inl e) ↦
            rw (e, roll_over) (abandon-IsReserved workers c BatcherError.stopped sample.key u.1 h')
        | inr (inr e) ↦
            rw (e, roll_over)
              (abandon-IsReserved workers c BatcherError.queue_full sample.key u.1 h')
      ]

  builders-IsLaneBelow :
      (d : PublishKey → ℕ) (t : PageBatcher)
      → IsReserved workers d t
      → All (IsLaneBelow workers) t.builders
  unfolding IsReserved
  builders-IsLaneBelow d t h = h.1.1.1

  release_one :
      (t : PageBatcher)
      → IsReserved workers (λ k. one_key k sample.key + c k) t
      → IsReserved workers c (record t {
        publisher = release_keys (sample.key ∷ []) t.publisher;
        result = record t.result {
          oversized_samples = t.result.oversized_samples + 1;
          has_oversized = true;
        };
      })
  unfolding IsReserved release_keys
  release_one t h = (
    release_keys-IsAccountedFor (λ k. held k t.builders + c k) (sample.key ∷ []) t.publisher
        (recount _ _ t.publisher (λ k. omega arith) h.0),
    h.1,
  )

  same_account :
      (t : PageBatcher)
      → IsReserved workers c t
      → IsReserved workers c
          (record t { result = record t.result { already_pending = t.result.already_pending + 1 } })
  unfolding IsReserved
  same_account t h = h

  reserve-IsReserved :
      (t : PageBatcher)
      → (reserve sample.key t.publisher).0 ≡ true
      → IsReserved workers c t
      → IsReserved workers
          (λ k. one_key k sample.key + c k)
          (record t { publisher = (reserve sample.key t.publisher).1 })
  unfolding IsReserved
  reserve-IsReserved t fresh h = (
    recount _ _ _ (λ k. omega arith)
        (reserve-IsAccountedFor (λ k. held k t.builders + c k) sample.key t.publisher fresh h.0),
    (h.1.0, (ap (λ q. length q.lanes) (reserve_queue sample.key t.publisher) ∙ h.1.1.0, h.1.1.1)),
  )

  get_or-place :
      (t : PageBatcher)
      → All (IsLaneBelow workers) t.builders
      → ((k : PublishKey)
          → key_count k (builder_at size marshal compress encoder slot cycle policy lane t).keys
            ≡ builder_keys k (get_or t.builders (place policy lane) none))
        × ((builder_at size marshal compress encoder slot cycle policy lane t).lane < workers)
  unfolding builder_at
  get_or-place t h = elim (Option-cases (get_or t.builders (place policy lane) none)) [
    | inl n ↦ rw (n, builder_at) ((λ k. ap (key_count k) fresh_keys), omega (arith, fresh_lane))
    | inr (b, n) ↦
        let below =
          subst (IsLaneBelow workers) n
            (get_or-IsLaneBelow workers (place policy lane) t.builders h) in
        rw (n, builder_at) ((λ k. refl), below)
  ]

  add_reserved-IsReserved :
      (t : PageBatcher)
      → IsReserved workers (λ k. one_key k sample.key + c k) t
      → IsReserved workers c
          (add_reserved size marshal compress encoder slot cycle policy lane sample t).1
  unfolding add_reserved
  add_reserved-IsReserved t h =
      let b : BatchBuilder = builder_at size marshal compress encoder slot cycle policy lane t in
      let i = place_lt policy lane workers lt in
      let (keys, below) =
        get_or-place t (builders-IsLaneBelow (λ k. one_key k sample.key + c k) t h) in
      let kept =
        put_builder-IsReserved workers (λ k. one_key k sample.key + c k)
          (λ k. one_key k sample.key + c k) (place policy lane) (some b) t i below
          (λ k. omega (arith, keys k)) h in
      elim (Added-cases (add size b sample)) [
        | inl (d, e) ↦
            let (more, same_lane) = taken_keys b d e in
            rw (e, add_reserved)
              (put_builder-IsReserved workers c (λ k. one_key k sample.key + c k)
                (place policy lane) (some d) t i (omega (arith, same_lane, below))
                (λ k. omega (arith, keys k, more k)) h)
        | inr (inr e) ↦
            rw (e, add_reserved)
              (release_one
                (put_builder size marshal compress encoder slot cycle policy lane (some b) t) kept)
        | inr (inl e) ↦ elim (Encoded-cases (encode marshal compress b)) [
          | inl (batch, m) ↦
              let (batch_keys, batch_lane) = encoded_from marshal compress b batch m in
              rw (e, add_reserved)
                (rw m (
                  roll_over-IsReserved batch t (λ k. ap (key_count k) batch_keys ∙ keys k)
                    (omega (arith, batch_lane, below)) h))
          | inr (inl m) ↦
              rw (e, add_reserved)
                (rw m (abandon-IsReserved workers c BatcherError.encode_failed sample.key _ kept))
          | inr (inr m) ↦
              rw (e, add_reserved)
                (rw m (abandon-IsReserved workers c BatcherError.encode_failed sample.key _ kept))
        ]
      ]

  -- A sample for a worker's lane is added to a page batcher. If before it every key was reserved as
  -- often as it stands in a builder, in the queue or elsewhere, and at most once, then so it is
  -- afterwards, whether the sample was taken, was already reserved, was too large, or made the
  -- batcher give up.
  pub add_sample-IsReserved :
      (t : PageBatcher)
      → IsReserved workers c t
      → IsReserved workers c
          (add_sample size marshal compress encoder slot cycle policy lane sample t).1
  unfolding add_sample
  add_sample-IsReserved t h = elim (Bool-cases (reserve sample.key t.publisher).0) [
    | inr f ↦ rw (f, add_sample) (same_account t h)
    | inl fresh ↦
        rw (fresh, add_sample)
          (add_reserved-IsReserved (record t { publisher = (reserve sample.key t.publisher).1 })
            (reserve-IsReserved t fresh h))
  ]
