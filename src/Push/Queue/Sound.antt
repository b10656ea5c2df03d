-- ===== src/Push/Queue/Sound.antt =====
-- internal/promwrap/push_worker.go: the invariant of the queue, and its operations on one batch.
use zabbix_exporter.Prelude.{
  ℕ, zero, suc, ◌+◌, ◌<◌, ◌≤◌, ◌≡◌, refl, sym, ap, ◌⊎◌, inl, inr, Bool, true, false, ◌&&◌, List, [],
  ◌∷◌, ◌++◌, ltb, leb, if◌then◌else◌, length, length-append, get_or, replicate, total, All,
  All-append, arith, Bool-cases, List-cases,
}
use zabbix_exporter.Push.Queue.{
  EncodedBatch, LaneQueue, QueueAdmission, new_lane_queue, cycle_at, latest_or_zero, is_long,
  set_lane, enqueue_open, try_enqueue, pop, Popped,
}

abbrev pub queued : List (List EncodedBatch) → ℕ
queued = total length

-- No batch of a long cycle is older than the latest cycle of its slot.
abbrev pub IsTimely : List (ℕ × ℕ) → EncodedBatch → Type 0
IsTimely cycles b =
    is_long b ≡ true → latest_or_zero (cycle_at b.slot cycles) ≤ b.cycle_timestamp_ms

pub record IsSound (q : LaneQueue) : Type 0 where
  pub counted : q.size ≡ queued q.lanes
  pub bounded : q.size ≤ q.capacity
  pub timely : All (λ lane. All (IsTimely q.latest_cycles) lane) q.lanes

queued_new : (n : ℕ) → 0 ≡ queued (replicate n [])
queued_new zero = refl
queued_new (suc n) = omega (arith, queued_new n)

new-All : (n : ℕ) → All (λ lane. All (IsTimely []) lane) (replicate n [])
new-All zero = tt
new-All (suc n) = (tt, new-All n)

-- A new queue is sound.
pub new_lane_queue-IsSound : (workers capacity : ℕ) → IsSound (new_lane_queue workers capacity)
unfolding new_lane_queue
new_lane_queue-IsSound workers capacity = record {
  counted = queued_new workers;
  bounded = omega arith;
  timely = new-All workers;
}

queued-set_lane :
    (i : ℕ) (lane : List EncodedBatch) (ls : List (List EncodedBatch))
    → i < length ls
    → queued (set_lane i lane ls) + length (get_or ls i []) ≡ queued ls + length lane
unfolding set_lane
queued-set_lane i lane [] h = absurd (omega arith)
queued-set_lane zero lane (l ∷ ls) h = omega arith
queued-set_lane (suc i) lane (l ∷ ls) h = omega (arith, queued-set_lane i lane ls (omega arith))

set_lane-All :
    (P : List EncodedBatch → Type 0) (i : ℕ) (lane : List EncodedBatch)
    (ls : List (List EncodedBatch))
    → P lane
    → All P ls
    → All P (set_lane i lane ls)
unfolding set_lane
set_lane-All P i lane [] p h = tt
set_lane-All P zero lane (l ∷ ls) p h = (p, h.1)
set_lane-All P (suc i) lane (l ∷ ls) p h = (h.0, set_lane-All P i lane ls p h.1)

get_or-All :
    (P : List EncodedBatch → Type 0) (i : ℕ) (ls : List (List EncodedBatch))
    → P []
    → All P ls
    → P (get_or ls i [])
get_or-All P i [] e h = e
get_or-All P zero (l ∷ ls) e h = h.0
get_or-All P (suc i) (l ∷ ls) e h = get_or-All P i ls e h.1

IsTimely-new :
    (q : LaneQueue) (b : EncodedBatch)
    → (is_long b && ltb b.cycle_timestamp_ms (latest_or_zero (cycle_at b.slot q.latest_cycles)))
      ≡ false
    → IsTimely q.latest_cycles b
IsTimely-new q b f long = ground arith

pub if_cases :
    {A : Type 0} (b : Bool) (x y : A) → ((if b then x else y) ≡ x) ⊎ ((if b then x else y) ≡ y)
if_cases true x y = inl refl
if_cases false x y = inr refl

-- The batches of a lane after it was set, and those of another lane.
get_or-set_lane :
    (i : ℕ) (lane : List EncodedBatch) (ls : List (List EncodedBatch))
    → i < length ls
    → get_or (set_lane i lane ls) i [] ≡ lane
unfolding set_lane
get_or-set_lane i lane [] h = absurd (omega arith)
get_or-set_lane zero lane (l ∷ ls) h = refl
get_or-set_lane (suc i) lane (l ∷ ls) h = get_or-set_lane i lane ls (omega arith)

other-set_lane :
    (i j : ℕ) (lane : List EncodedBatch) (ls : List (List EncodedBatch))
    → (j ≡ i → ⊥)
    → get_or (set_lane i lane ls) j [] ≡ get_or ls j []
unfolding set_lane
other-set_lane i j lane [] n = refl
other-set_lane zero zero lane (l ∷ ls) n = absurd (n refl)
other-set_lane zero (suc j) lane (l ∷ ls) n = refl
other-set_lane (suc i) zero lane (l ∷ ls) n = refl
other-set_lane (suc i) (suc j) lane (l ∷ ls) n = other-set_lane i j lane ls (λ e. n (ap suc e))

-- What an offered batch does: it is accepted while there is room, as the last of its lane, or it is
-- not accepted and the queue stays.
abbrev pub IsOffered : LaneQueue → EncodedBatch → LaneQueue × QueueAdmission → Type 0
IsOffered q b r =
    (r.1 ≡ QueueAdmission.accepted)
      × ((q.size < q.capacity)
          × ((r.0.size ≡ q.size + 1)
              × ((get_or r.0.lanes b.lane [] ≡ get_or q.lanes b.lane [] ++ b ∷ [])
                  × ((j : ℕ) → (j ≡ b.lane → ⊥) → get_or r.0.lanes j [] ≡ get_or q.lanes j []))))
    ⊎ ((r.1 ≡ QueueAdmission.full) ⊎ (r.1 ≡ QueueAdmission.obsolete)) × (r.0 ≡ q)

enqueue_open-IsSound :
    (q : LaneQueue) (b : EncodedBatch)
    → b.lane < length q.lanes
    → IsSound q
    → IsSound (enqueue_open q b).0 × IsOffered q b (enqueue_open q b)
unfolding enqueue_open
enqueue_open-IsSound q b lt h =
    elim (Bool-cases
      (is_long b && ltb b.cycle_timestamp_ms (latest_or_zero (cycle_at b.slot q.latest_cycles)))) [
        | inl t ↦ (rw (t, enqueue_open) (h, inr (inr refl, refl)))
        | inr g ↦ elim (Bool-cases (leb q.capacity q.size)) [
          | inl t ↦ (rw (g, enqueue_open) (rw (t, enqueue_open) (h, inr (inl refl, refl))))
          | inr room ↦
              (rw (g, enqueue_open)
                (rw (room, enqueue_open)
                  (
                    record {
                      counted = omega (
                        arith,
                        h.counted,
                        queued-set_lane b.lane (get_or q.lanes b.lane [] ++ b ∷ []) q.lanes lt,
                        length-append (get_or q.lanes b.lane []) (b ∷ []),
                      );
                      bounded = ground arith;
                      timely =
                          set_lane-All (All (IsTimely q.latest_cycles)) b.lane
                            (get_or q.lanes b.lane [] ++ b ∷ []) q.lanes
                            (All-append (IsTimely q.latest_cycles) (get_or q.lanes b.lane [])
                              (b ∷ [])
                              (get_or-All (All (IsTimely q.latest_cycles)) b.lane q.lanes tt
                                h.timely)
                              (IsTimely-new q b g, tt))
                            h.timely;
                    },
                    inl (
                      refl,
                      (
                        ground arith,
                        (
                          refl,
                          (
                            get_or-set_lane b.lane (get_or q.lanes b.lane [] ++ b ∷ []) q.lanes lt,
                            λ j n.
                                other-set_lane b.lane j (get_or q.lanes b.lane [] ++ b ∷ []) q.lanes
                                  n,
                          ),
                        ),
                      ),
                    ),
                  )))
        ]
      ]

pub try_enqueue_cases :
    (q : LaneQueue) (b : EncodedBatch)
    → (try_enqueue q b ≡ (q, QueueAdmission.obsolete)) ⊎ (try_enqueue q b ≡ enqueue_open q b)
unfolding try_enqueue
try_enqueue_cases q b = if_cases q.closed (q, QueueAdmission.obsolete) (enqueue_open q b)

-- A batch for one of the lanes, offered to a sound queue: the queue stays sound. If the batch is
-- accepted, the queue was below its capacity and grows by one: the batch is the last of its lane, and
-- the other lanes are as they were. If it is not, the queue is as it was.
pub try_enqueue-IsSound :
    (q : LaneQueue) (b : EncodedBatch)
    → b.lane < length q.lanes
    → IsSound q
    → IsSound (try_enqueue q b).0 × IsOffered q b (try_enqueue q b)
try_enqueue-IsSound q b lt h = elim (try_enqueue_cases q b) [
  | inl e ↦ rw e (h, inr (inr refl, refl))
  | inr e ↦ rw e (enqueue_open-IsSound q b lt h)
]

in_range :
    (i : ℕ) (ls : List (List EncodedBatch)) (b : EncodedBatch) (rest : List EncodedBatch)
    → get_or ls i [] ≡ b ∷ rest
    → i < length ls
in_range i [] b rest e = cc
in_range zero (l ∷ ls) b rest e = omega arith
in_range (suc i) (l ∷ ls) b rest e = omega (arith, in_range i ls b rest e)

-- What a worker takes: the oldest batch of its lane, or nothing if the lane is empty.
abbrev pub IsTaken : LaneQueue → ℕ → LaneQueue × Popped → Type 0
IsTaken q lane r =
    (get_or q.lanes lane [] ≡ [])
      × ((r.0 ≡ q) × (r.1 ≡ (if q.closed then Popped.ended else Popped.wait)))
    ⊎ ((b : EncodedBatch) × (r.1 ≡ Popped.batch b)
        × (get_or q.lanes lane [] ≡ b ∷ get_or r.0.lanes lane [])
        × (q.size ≡ r.0.size + 1)
        × ((j : ℕ) → (j ≡ lane → ⊥) → get_or r.0.lanes j [] ≡ get_or q.lanes j []))

-- `pop` of a sound queue leaves it sound. If the lane is empty, the queue is as it was, and the answer
-- is to wait, or the end if the queue is closed. Otherwise the answer is the oldest batch of the lane,
-- which is taken from it: the queue shrinks by one, and the other lanes are as they were.
pub pop-IsSound :
    (q : LaneQueue) (lane : ℕ) → IsSound q → IsSound (pop q lane).0 × IsTaken q lane (pop q lane)
unfolding pop
pop-IsSound q lane h = elim (List-cases (get_or q.lanes lane [])) [
  | inl n ↦ rw (n, pop) (h, inl (refl, (refl, refl)))
  | inr (b, rest, n) ↦
      let here = get_or-All (All (IsTimely q.latest_cycles)) lane q.lanes tt h.timely in
      let lt = in_range lane q.lanes b rest n in
      let moved = queued-set_lane lane rest q.lanes lt in
      rw (n, pop)
        (
          record {
            counted = omega (arith, h.counted, moved, ap length n);
            bounded = omega (arith, h.bounded);
            timely =
                set_lane-All (All (IsTimely q.latest_cycles)) lane rest q.lanes (rw n at here).1
                  h.timely;
          },
          inr (
            b,
            refl,
            ap (λ l. b ∷ l) (sym (get_or-set_lane lane rest q.lanes lt)),
            omega (arith, h.counted, moved, ap length n),
            λ j m. other-set_lane lane j rest q.lanes m,
          ),
        )
]
