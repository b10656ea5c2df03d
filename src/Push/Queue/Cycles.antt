-- ===== src/Push/Queue/Cycles.antt =====
-- internal/promwrap/push_worker.go: the start of a long cycle and the end of the queue, against its
-- invariant.
use zabbix_exporter.Prelude.{
  ℕ, ◌+◌, ◌≡◌, refl, sym, ap, ◌∙◌, ◌⊎◌, inl, inr, Bool, false, not, List, [], ◌∷◌, some, ltb, ◌==◌,
  if◌then◌else◌, length, length-append, keep, All, arith, Option-cases, Bool-cases, ==_iff,
}
use zabbix_exporter.Push.Queue.{
  EncodedBatch, LaneQueue, cycle_at, set_cycle, is_replaced, keep_lanes, join_lanes, replace_cycle,
  begin_open, begin_long_cycle, close,
}
use zabbix_exporter.Push.Queue.Sound.{IsSound, IsTimely, if_cases, queued}

length-keep :
    (p : EncodedBatch → Bool) (l : List EncodedBatch)
    → length (keep (λ b. not (p b)) l) + length (keep p l) ≡ length l
length-keep p [] = refl
length-keep p (b ∷ l) = ground (arith, length-keep p l)

length-keep_lanes :
    (p : EncodedBatch → Bool) (ls : List (List EncodedBatch))
    → queued (keep_lanes (λ b. not (p b)) ls) + length (join_lanes (keep_lanes p ls)) ≡ queued ls
unfolding keep_lanes join_lanes
length-keep_lanes p [] = refl
length-keep_lanes p (l ∷ ls) = omega (
  arith,
  length-keep_lanes p ls,
  length-append (keep p l) (join_lanes (keep_lanes p ls)),
  length-keep p l,
)

cycle_at-set :
    (slot j ms : ℕ) (m : List (ℕ × ℕ))
    → cycle_at j (set_cycle slot ms m) ≡ (if slot == j then some ms else cycle_at j m)
unfolding cycle_at set_cycle
cycle_at-set slot j ms [] = refl
cycle_at-set slot j ms ((i, old) ∷ m) = ground (arith, cycle_at-set slot j ms m)

IsTimely-after :
    (cycles : List (ℕ × ℕ)) (slot cycle : ℕ) (b : EncodedBatch)
    → is_replaced slot cycle b ≡ false
    → IsTimely cycles b
    → IsTimely (set_cycle slot cycle cycles) b
unfolding is_replaced
IsTimely-after cycles slot cycle b f h long = elim (Bool-cases (slot == b.slot)) [
  | inl t ↦
      rw (cycle_at-set slot b.slot cycle cycles)
        (rw t (let same : slot ≡ b.slot = (==_iff slot b.slot).0 t in ground arith))
  | inr n ↦ rw (cycle_at-set slot b.slot cycle cycles) (rw n (h long))
]

IsTimely-kept :
    (cycles : List (ℕ × ℕ)) (slot cycle : ℕ) (l : List EncodedBatch)
    → All (IsTimely cycles) l
    → All (IsTimely (set_cycle slot cycle cycles)) (keep (λ b. not (is_replaced slot cycle b)) l)
IsTimely-kept cycles slot cycle [] h = tt
IsTimely-kept cycles slot cycle (b ∷ l) h = elim (Bool-cases (is_replaced slot cycle b)) [
  | inl t ↦ rw t (IsTimely-kept cycles slot cycle l h.1)
  | inr f ↦ rw f (IsTimely-after cycles slot cycle b f h.0, IsTimely-kept cycles slot cycle l h.1)
]

kept_lanes :
    (cycles : List (ℕ × ℕ)) (slot cycle : ℕ) (ls : List (List EncodedBatch))
    → All (λ l. All (IsTimely cycles) l) ls
    → All
        (λ l. All (IsTimely (set_cycle slot cycle cycles)) l)
        (keep_lanes (λ b. not (is_replaced slot cycle b)) ls)
unfolding keep_lanes
kept_lanes cycles slot cycle [] h = tt
kept_lanes cycles slot cycle (l ∷ ls) h =
    (IsTimely-kept cycles slot cycle l h.0, kept_lanes cycles slot cycle ls h.1)

replace_cycle-IsSound :
    (q : LaneQueue) (slot cycle : ℕ)
    → IsSound q
    → IsSound (replace_cycle q slot cycle).queue
      × ((replace_cycle q slot cycle).queue.size + length (replace_cycle q slot cycle).removed
          ≡ q.size)
replace_cycle-IsSound q slot cycle h =
    let parts = length-keep_lanes (is_replaced slot cycle) q.lanes in
    (
      record {
        counted = omega (arith, parts, h.counted);
        bounded = omega (arith, h.bounded);
        timely = kept_lanes q.latest_cycles slot cycle q.lanes h.timely;
      },
      omega (arith, parts, h.counted),
    )

begin_open-IsSound :
    (q : LaneQueue) (slot cycle : ℕ)
    → IsSound q
    → IsSound (begin_open q slot cycle).queue
      × ((begin_open q slot cycle).queue.size + length (begin_open q slot cycle).removed ≡ q.size)
unfolding begin_open
begin_open-IsSound q slot cycle h = elim (Option-cases (cycle_at slot q.latest_cycles)) [
  | inl n ↦ rw (n, begin_open) (replace_cycle-IsSound q slot cycle h)
  | inr (ms, n) ↦ elim (Bool-cases (ltb cycle ms)) [
    | inl t ↦ rw (n, begin_open) (rw (t, begin_open) (h, omega arith))
    | inr g ↦ elim (Bool-cases (cycle == ms)) [
      | inl t ↦ rw (n, begin_open) (rw (g, begin_open) (rw (t, begin_open) (h, omega arith)))
      | inr k ↦
          rw (n, begin_open)
            (rw (g, begin_open) (rw (k, begin_open) (replace_cycle-IsSound q slot cycle h)))
    ]
  ]
]

begin-cases :
    (q : LaneQueue) (slot cycle : ℕ)
    → (begin_long_cycle q slot cycle ≡ record { queue = q; current = false; removed = [] })
      ⊎ (begin_long_cycle q slot cycle ≡ begin_open q slot cycle)
unfolding begin_long_cycle
begin-cases q slot cycle =
    if_cases q.closed (record { queue = q; current = false; removed = [] })
      (begin_open q slot cycle)

-- A long cycle's start leaves the queue sound, and the batches that it removes are those by which
-- the queue shrinks.
pub begin_long_cycle-IsSound :
    (q : LaneQueue) (slot cycle : ℕ)
    → IsSound q
    → IsSound (begin_long_cycle q slot cycle).queue
      × ((begin_long_cycle q slot cycle).queue.size + length (begin_long_cycle q slot cycle).removed
          ≡ q.size)
begin_long_cycle-IsSound q slot cycle h = elim (begin-cases q slot cycle) [
  | inl e ↦ rw e (h, omega arith)
  | inr e ↦ rw e (begin_open-IsSound q slot cycle h)
]

none_kept : (l : List EncodedBatch) → keep (λ b. false) l ≡ []
none_kept [] = refl
none_kept (b ∷ l) = none_kept l

queued_none : (ls : List (List EncodedBatch)) → queued (keep_lanes (λ b. false) ls) ≡ 0
unfolding keep_lanes
queued_none [] = refl
queued_none (l ∷ ls) = omega (arith, queued_none ls, ap length (none_kept l))

none-IsTimely :
    (cycles : List (ℕ × ℕ)) (ls : List (List EncodedBatch))
    → All (λ lane. All (IsTimely cycles) lane) (keep_lanes (λ b. false) ls)
unfolding keep_lanes
none-IsTimely cycles [] = tt
none-IsTimely cycles (l ∷ ls) = (rw (none_kept l) tt, none-IsTimely cycles ls)

length-join : (ls : List (List EncodedBatch)) → length (join_lanes ls) ≡ queued ls
unfolding join_lanes
length-join [] = refl
length-join (l ∷ ls) = omega (arith, length-append l (join_lanes ls), length-join ls)

-- Closing a sound queue that is open returns every queued batch, and leaves a sound, empty queue.
close-IsSound :
    (q : LaneQueue)
    → IsSound q
    → q.closed ≡ false
    → IsSound (close q).0 × (length (close q).1 ≡ q.size) × ((close q).0.size ≡ 0)
unfolding close
close-IsSound q h open' =
    rw (open', close)
      (
        record {
          counted = sym (queued_none q.lanes);
          bounded = omega arith;
          timely = none-IsTimely q.latest_cycles q.lanes;
        },
        length-join q.lanes ∙ sym h.counted,
        refl,
      )
