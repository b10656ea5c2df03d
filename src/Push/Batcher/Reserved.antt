-- ===== src/Push/Batcher/Reserved.antt =====
-- internal/promwrap/publisher.go: the account of reservations, of the keys whose samples are in a
-- builder or in the queue.
pub mod Keys
pub mod Account
pub mod Samples
pub mod Finished
use zabbix_exporter.Prelude.{
  ℕ, zero, suc, ◌+◌, ◌*◌, ◌≤◌, ◌<◌, ◌≡◌, ◌⊎◌, refl, sym, subst, ap, ◌∙◌, inl, inr, Bool, true,
  false, List, [], ◌∷◌, ◌++◌, Option, none, some, All, ltb, ◌==◌, if◌then◌else◌, length, get_or,
  total, total-append, arith, Bool-cases, Option-cases,
}
use zabbix_exporter.Time.{Time}
use zabbix_exporter.Cache.State.{PublishPolicy}
use zabbix_exporter.Push.Queue.{PublishKey, EncodedBatch, QueueAdmission}
use zabbix_exporter.Push.Publisher.{Publisher, reserve, release_keys, submit_batch}
use zabbix_exporter.Push.Encoder.{
  EncodeSeries, TimeSeries, BatchEncoder, BatchBuilder, Added, Encoded, new_builder, add, encode,
  encode_raw, batch_of, is_empty, take_sample,
}
use zabbix_exporter.Push.Encoder.Bounds.{taken_within}
use zabbix_exporter.Push.Batcher.{
  PageBatcher, BatcherError, policy_index, set_builder, vacant, cleanup, abandon, release_builders,
  fresh_builder, builder_at, put_builder, restart, submit, roll_over, add_reserved, add_sample,
  count_batch,
}
use zabbix_exporter.Push.Batcher.Reserved.Keys.{one_key, key_count}
use zabbix_exporter.Push.Batcher.Reserved.Account.{
  builder_keys, held, IsAccountedFor, recount, release_keys-IsAccountedFor,
  release_builders-IsAccountedFor, held-vacant, length-vacant, held-set_builder, length-set_builder,
  reserve-IsAccountedFor, submit_batch-IsAccountedFor,
}

batch_in : EncodedBatch → Encoded → EncodedBatch
batch_in d (Encoded.batch e) = e
batch_in d Encoded.refused = d
batch_in d Encoded.nothing = d

refused_not : (e : EncodedBatch) → ¬ (Encoded.refused ≡ Encoded.batch e)
refused_not e h = cc

nothing_not : (e : EncodedBatch) → ¬ (Encoded.nothing ≡ Encoded.batch e)
nothing_not e h = cc

batch_inj : (d e : EncodedBatch) → Encoded.batch d ≡ Encoded.batch e → d ≡ e
unfolding batch_in
batch_inj d e h = ap (batch_in d) h

-- A batch has its builder's keys and lane.
pub encoded_from :
    (marshal : List TimeSeries → Option (List ℕ)) (compress : List ℕ → List ℕ) (b : BatchBuilder)
    (e : EncodedBatch)
    → encode marshal compress b ≡ Encoded.batch e
    → (e.keys ≡ b.keys) × (e.lane ≡ b.lane)
unfolding encode encode_raw batch_of
encoded_from marshal compress b e h = elim (Bool-cases (is_empty b)) [
  | inl t ↦ absurd (nothing_not e (rw (t, encode) at h))
  | inr some_series ↦
      let h1 = rw (some_series, encode) at h in
      elim (Option-cases (marshal b.series)) [
        | inl n ↦ absurd (refused_not e (rw n at h1))
        | inr (raw, m) ↦
            let h2 = rw m at h1 in
            elim (Bool-cases (ltb b.encoder.max_bytes (length raw))) [
              | inl t ↦ absurd (refused_not e (rw (t, encode_raw) at h2))
              | inr f ↦
                  let same =
                    batch_inj (batch_of marshal compress b raw) e (rw (f, encode_raw) at h2) in
                  (sym (ap (λ x. x.keys) same), sym (ap (λ x. x.lane) same))
            ]
      ]
]

-- A builder's place, and that a builder stands in one of its lane's.
abbrev pub place : PublishPolicy → ℕ → ℕ
place policy lane = lane * 2 + policy_index policy

pub place_lt :
    (policy : PublishPolicy) (lane workers : ℕ) → lane < workers → place policy lane < workers * 2
place_lt PublishPolicy.source_timestamp lane workers h = omega arith
place_lt PublishPolicy.cycle_timestamp lane workers h = omega arith

abbrev pub IsLaneBelow : ℕ → Option BatchBuilder → Type 0
IsLaneBelow workers none = Unit
IsLaneBelow workers (some b) = b.lane < workers

-- There are two builders for each worker, for its lane or another, and a lane for each. A key is
-- reserved as often as it stands in a builder, in the queue and in `others`, and at most once.
unfoldable pub IsReserved : ℕ → (PublishKey → ℕ) → PageBatcher → Type 0
IsReserved workers others t =
    IsAccountedFor (λ k. held k t.builders + others k) t.publisher
    × ((length t.builders ≡ workers * 2)
        × ((length t.publisher.queue.lanes ≡ workers) × All (IsLaneBelow workers) t.builders))

pub get_or-IsLaneBelow :
    (workers i : ℕ) (builders : List (Option BatchBuilder))
    → All (IsLaneBelow workers) builders
    → IsLaneBelow workers (get_or builders i none)
get_or-IsLaneBelow workers i [] h = tt
get_or-IsLaneBelow workers zero (b ∷ builders) h = h.0
get_or-IsLaneBelow workers (suc i) (b ∷ builders) h = get_or-IsLaneBelow workers i builders h.1

set_builder_below :
    (workers i : ℕ) (o : Option BatchBuilder) (builders : List (Option BatchBuilder))
    → IsLaneBelow workers o
    → All (IsLaneBelow workers) builders
    → All (IsLaneBelow workers) (set_builder i o builders)
unfolding set_builder
set_builder_below workers i o [] ho h = tt
set_builder_below workers zero o (b ∷ builders) ho h = (ho, h.1)
set_builder_below workers (suc i) o (b ∷ builders) ho h =
    (h.0, set_builder_below workers i o builders ho h.1)

vacant_below :
    (workers : ℕ) (builders : List (Option BatchBuilder))
    → All (IsLaneBelow workers) (vacant builders)
vacant_below workers [] = tt
vacant_below workers (b ∷ builders) = (tt, vacant_below workers builders)

release_builders_queue :
    (builders : List (Option BatchBuilder)) (p : Publisher)
    → (release_builders builders p).queue ≡ p.queue
unfolding release_builders release_keys
release_builders_queue [] p = refl
release_builders_queue (none ∷ builders) p = release_builders_queue builders p
release_builders_queue (some b ∷ builders) p =
    release_builders_queue builders (release_keys b.keys p)

-- One builder is replaced by another, whose keys come from outside or go there.
pub put_builder-IsReserved :
    (workers : ℕ) (c d : PublishKey → ℕ) (i : ℕ) (o : Option BatchBuilder) (t : PageBatcher)
    → i < workers * 2
    → IsLaneBelow workers o
    → ((k : PublishKey) → builder_keys k (get_or t.builders i none) + d k ≡ builder_keys k o + c k)
    → IsReserved workers d t
    → IsReserved workers c (record t { builders = set_builder i o t.builders })
unfolding IsReserved
put_builder-IsReserved workers c d i o t lt ho same h = (
  recount _ _ t.publisher
      (λ k. omega (arith, same k, held-set_builder k i o t.builders (omega (arith, h.1.0)))) h.0,
  (
    length-set_builder i o t.builders ∙ h.1.0,
    (h.1.1.0, set_builder_below workers i o t.builders ho h.1.1.1),
  ),
)

-- Without its builders, nothing of the batcher is reserved.
pub cleanup-IsReserved :
    (workers : ℕ) (c : PublishKey → ℕ) (t : PageBatcher)
    → IsReserved workers c t
    → IsReserved workers c (cleanup t)
unfolding cleanup IsReserved
cleanup-IsReserved workers c t h = (
  recount _ _ _ (λ k. omega (arith, held-vacant k t.builders))
      (release_builders-IsAccountedFor c t.builders t.publisher h.0),
  (
    length-vacant t.builders ∙ h.1.0,
    (
      ap (λ q. length q.lanes) (release_builders_queue t.builders t.publisher) ∙ h.1.1.0,
      vacant_below workers t.builders,
    ),
  ),
)

pub abandon-IsReserved :
    (workers : ℕ) (c : PublishKey → ℕ) (error : BatcherError) (key : PublishKey) (t : PageBatcher)
    → IsReserved workers (λ k. one_key k key + c k) t
    → IsReserved workers c (abandon error key t).1
unfolding abandon IsReserved release_keys
abandon-IsReserved workers c error key t h =
    cleanup-IsReserved workers c (record t { publisher = release_keys (key ∷ []) t.publisher })
      (
        release_keys-IsAccountedFor (λ k. held k t.builders + c k) (key ∷ []) t.publisher
            (recount _ _ t.publisher (λ k. omega arith) h.0),
        h.1,
      )

-- The batch of a builder is submitted, and the builder's place is empty.
pub submit_at-IsReserved :
    (workers : ℕ) (d : PublishKey → ℕ) (i : ℕ) (batch : EncodedBatch) (t : PageBatcher)
    → i < workers * 2
    → ((k : PublishKey) → key_count k batch.keys ≡ builder_keys k (get_or t.builders i none))
    → batch.lane < workers
    → IsReserved workers d t
    → IsReserved workers d (record t {
      publisher = (submit_batch batch t.publisher).1;
      builders = set_builder i none t.builders;
    })
unfolding IsReserved
submit_at-IsReserved workers d i batch t lt keys below h =
    let moved =
      put_builder-IsReserved workers (λ k. key_count k batch.keys + d k) d i none t lt tt
        (λ k. omega (arith, keys k)) h in
    let (account, lanes) =
      submit_batch-IsAccountedFor (λ k. held k (set_builder i none t.builders) + d k) batch
        t.publisher (omega (arith, h.1.1.0)) (recount _ _ t.publisher (λ k. omega arith) moved.0) in
    (account, (moved.1.0, (lanes ∙ h.1.1.0, moved.1.1.1)))
