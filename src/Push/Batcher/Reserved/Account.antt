-- ===== src/Push/Batcher/Reserved/Account.antt =====
-- internal/promwrap/publisher.go: what the publisher's own steps do to the account of reservations.
use zabbix_exporter.Prelude.{
  ℕ, zero, suc, ◌+◌, ◌≤◌, ◌<◌, ◌≡◌, ◌⊎◌, refl, ap, ◌∙◌, inl, inr, Bool, true, false, not, ◌&&◌,
  List, [], ◌∷◌, ◌++◌, Option, none, some, ltb, leb, ◌==◌, length, get_or, total, total-append,
  arith, Bool-cases,
}
use zabbix_exporter.Push.Queue.{
  PublishKey, EncodedBatch, LaneQueue, QueueAdmission, enqueue_open, set_lane, is_long, cycle_at,
  latest_or_zero,
}
use zabbix_exporter.Push.Queue.Sound.{try_enqueue_cases}
use zabbix_exporter.Push.Publisher.{
  Publisher, reserve, has_key, release_keys, submit_batch, same_key,
}
use zabbix_exporter.Push.Encoder.{BatchBuilder}
use zabbix_exporter.Push.Batcher.{release_builders, set_builder, vacant}
use zabbix_exporter.Push.Batcher.Reserved.Keys.{
  one_key, key_count, key_count-forget, has_key-count, same_key_iff,
}

-- How often a key stands in the batches of the lanes, and in the builders.
abbrev pub lane_keys : PublishKey → List (List EncodedBatch) → ℕ
lane_keys k lanes = total (λ lane. total (λ b. key_count k b.keys) lane) lanes

abbrev pub builder_keys : PublishKey → Option BatchBuilder → ℕ
builder_keys k none = 0
builder_keys k (some b) = key_count k b.keys

abbrev pub held : PublishKey → List (Option BatchBuilder) → ℕ
held k builders = total (builder_keys k) builders

-- Every key is reserved as often as it stands in the queue and in `others`, and at most once.
unfoldable pub IsAccountedFor : (PublishKey → ℕ) → Publisher → Type 0
IsAccountedFor others p =
    (k : PublishKey)
    → (key_count k p.reservations ≡ lane_keys k p.queue.lanes + others k)
      × (key_count k p.reservations ≤ 1)

pub recount :
    (c d : PublishKey → ℕ) (p : Publisher)
    → ((k : PublishKey) → c k ≡ d k)
    → IsAccountedFor c p
    → IsAccountedFor d p
unfolding IsAccountedFor
recount c d p e h k = (omega (arith, (h k).0, e k), (h k).1)

pub release_keys-IsAccountedFor :
    (c : PublishKey → ℕ) (keys : List PublishKey) (p : Publisher)
    → IsAccountedFor (λ k. key_count k keys + c k) p
    → IsAccountedFor c (release_keys keys p)
unfolding IsAccountedFor release_keys
release_keys-IsAccountedFor c keys p h k =
    let forgotten = key_count-forget k keys p.reservations in
    let (exact, most) = h k in
    (ground (arith, forgotten, exact, most), ground (arith, forgotten, most))

pub release_builders-IsAccountedFor :
    (c : PublishKey → ℕ) (builders : List (Option BatchBuilder)) (p : Publisher)
    → IsAccountedFor (λ k. held k builders + c k) p
    → IsAccountedFor c (release_builders builders p)
unfolding release_builders
release_builders-IsAccountedFor c [] p h = recount _ c p (λ k. omega arith) h
release_builders-IsAccountedFor c (none ∷ builders) p h =
    release_builders-IsAccountedFor c builders p (recount _ _ p (λ k. omega arith) h)
release_builders-IsAccountedFor c (some b ∷ builders) p h =
    release_builders-IsAccountedFor c builders (release_keys b.keys p) (
      release_keys-IsAccountedFor (λ k. held k builders + c k) b.keys p
        (recount _ _ p (λ k. omega arith) h))

pub held-vacant :
    (k : PublishKey) (builders : List (Option BatchBuilder)) → held k (vacant builders) ≡ 0
held-vacant k [] = refl
held-vacant k (b ∷ builders) = omega (arith, held-vacant k builders)

pub length-vacant :
    (builders : List (Option BatchBuilder)) → length (vacant builders) ≡ length builders
length-vacant [] = refl
length-vacant (b ∷ builders) = omega (arith, length-vacant builders)

pub held-set_builder :
    (k : PublishKey) (i : ℕ) (o : Option BatchBuilder) (builders : List (Option BatchBuilder))
    → i < length builders
    → held k (set_builder i o builders) + builder_keys k (get_or builders i none)
      ≡ held k builders + builder_keys k o
unfolding set_builder
held-set_builder k i o [] h = absurd (omega arith)
held-set_builder k zero o (b ∷ builders) h = omega arith
held-set_builder k (suc i) o (b ∷ builders) h =
    omega (arith, held-set_builder k i o builders (omega arith))

pub length-set_builder :
    (i : ℕ) (o : Option BatchBuilder) (builders : List (Option BatchBuilder))
    → length (set_builder i o builders) ≡ length builders
unfolding set_builder
length-set_builder i o [] = refl
length-set_builder zero o (b ∷ builders) = refl
length-set_builder (suc i) o (b ∷ builders) = omega (arith, length-set_builder i o builders)

none_of_key : {b : Bool} {n : ℕ} → b ≡ false → b ≡ not (n == 0) → n ≡ 0
none_of_key f e = ground (arith, f, e)

-- A new reservation.
pub reserve-IsAccountedFor :
    (c : PublishKey → ℕ) (key : PublishKey) (p : Publisher)
    → (reserve key p).0 ≡ true
    → IsAccountedFor c p
    → IsAccountedFor (λ k. one_key k key + c k) (reserve key p).1
unfolding IsAccountedFor reserve
reserve-IsAccountedFor c key p fresh h = elim (Bool-cases (has_key key p.reservations)) [
  | inl t ↦ absurd (grind (arith, rw t at fresh))
  | inr f ↦ rw f (λ k.
      let counted = has_key-count key p.reservations in
      let (exact, most) = h k in
      elim (Bool-cases (same_key k key)) [
        | inr n ↦ (ground (arith, n, exact), ground (arith, n, most))
        | inl t ↦
            let none_yet : key_count k p.reservations ≡ 0 =
              ap (λ x. key_count x p.reservations) ((same_key_iff k key).0 t)
              ∙ none_of_key f counted in
            (ground (arith, t, exact), ground (arith, t, none_yet))
      ])
]

length-set_lane :
    (i : ℕ) (lane : List EncodedBatch) (lanes : List (List EncodedBatch))
    → length (set_lane i lane lanes) ≡ length lanes
unfolding set_lane
length-set_lane i lane [] = refl
length-set_lane zero lane (l ∷ lanes) = refl
length-set_lane (suc i) lane (l ∷ lanes) = omega (arith, length-set_lane i lane lanes)

lane_keys-set_lane :
    (k : PublishKey) (i : ℕ) (b : EncodedBatch) (lanes : List (List EncodedBatch))
    → i < length lanes
    → lane_keys k (set_lane i (get_or lanes i [] ++ b ∷ []) lanes)
      ≡ lane_keys k lanes + key_count k b.keys
unfolding set_lane
lane_keys-set_lane k i b [] h = absurd (omega arith)
lane_keys-set_lane k zero b (l ∷ lanes) h =
    omega (arith, total-append (λ x. key_count k x.keys) l (b ∷ []))
lane_keys-set_lane k (suc i) b (l ∷ lanes) h =
    omega (arith, lane_keys-set_lane k i b lanes (omega arith))

queued : LaneQueue → EncodedBatch → LaneQueue
queued q b = record q {
  lanes = set_lane b.lane (get_or q.lanes b.lane [] ++ b ∷ []) q.lanes;
  size = q.size + 1;
}

enqueue_open_cases :
    (q : LaneQueue) (b : EncodedBatch)
    → (enqueue_open q b ≡ (q, QueueAdmission.obsolete))
      ⊎ ((enqueue_open q b ≡ (q, QueueAdmission.full))
          ⊎ (enqueue_open q b ≡ (queued q b, QueueAdmission.accepted)))
unfolding enqueue_open queued
enqueue_open_cases q b =
    elim (Bool-cases
      (is_long b && ltb b.cycle_timestamp_ms (latest_or_zero (cycle_at b.slot q.latest_cycles)))) [
        | inl t ↦ inl (rw (t, enqueue_open) refl)
        | inr g ↦ elim (Bool-cases (leb q.capacity q.size)) [
          | inl t ↦ inr (inl (rw (g, enqueue_open) (rw t refl)))
          | inr f ↦ inr (inr (rw (g, enqueue_open) (rw f refl)))
        ]
      ]

-- A batch whose keys are reserved: they stay reserved if it is queued, and are released if not.
pub submit_batch-IsAccountedFor :
    (c : PublishKey → ℕ) (batch : EncodedBatch) (p : Publisher)
    → batch.lane < length p.queue.lanes
    → IsAccountedFor (λ k. key_count k batch.keys + c k) p
    → IsAccountedFor c (submit_batch batch p).1
      × (length (submit_batch batch p).1.queue.lanes ≡ length p.queue.lanes)
unfolding submit_batch IsAccountedFor queued
submit_batch-IsAccountedFor c batch p lt h = elim (try_enqueue_cases p.queue batch) [
  | inl e ↦ rw e (release_keys-IsAccountedFor c batch.keys p h, refl)
  | inr open_queue ↦ elim (enqueue_open_cases p.queue batch) [
    | inl e ↦ rw (open_queue ∙ e) (release_keys-IsAccountedFor c batch.keys p h, refl)
    | inr (inl e) ↦ rw (open_queue ∙ e) (release_keys-IsAccountedFor c batch.keys p h, refl)
    | inr (inr e) ↦ rw (open_queue ∙ e) (
      λ k.
          (omega (arith, (h k).0, lane_keys-set_lane k batch.lane batch p.queue.lanes lt), (h k).1),
      length-set_lane batch.lane _ p.queue.lanes,
    )
  ]
]
