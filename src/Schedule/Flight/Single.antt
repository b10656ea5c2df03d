-- ===== src/Schedule/Flight/Single.antt =====
-- internal/scheduler/scheduler.go: how often a group is among tasks, collections and reports.
use zabbix_exporter.Prelude.{
  ℕ, suc, ◌+◌, ◌≤◌, ◌<◌, ◌≡◌, refl, sym, ap, ◌∙◌, inl, inr, String, Bool, true, false,
  if◌then◌else◌, List, [], ◌∷◌, ◌++◌, Map, lookup, put, erase, lookup-put, lookup-erase, ite,
  text_dec, total, total-append, length, length-append, Option-cases, Bool-cases, ltb, ◌==◌, ltb→lt,
  ==_iff, arith,
}
use zabbix_exporter.Time.{Time}
use zabbix_exporter.Schedule.State.{Config, GroupEntry, CollectionTask, Scheduler, in_flight}
use zabbix_exporter.Schedule.Replace.{replace_groups}
use zabbix_exporter.Schedule.Dispatch.{plan_next, offer, dispatch, release, handle_done}
use zabbix_exporter.Schedule.Flight.{
  System, waiting, dispatching, in_hand, ◌⟶◌, replaces, wakes, passes, rests, takes, reports,
  receives, handles, Reachable, start, step, one_if, queued, reported, pending,
}

-- The counter of every group is the number of its tasks and of `others`, and is at most 1; the task
-- queue is within its capacity.
IsCounted : Config → (String → ℕ) → Scheduler → Type 0
IsCounted config others s =
    ((id : String)
      → (in_flight s.in_flight_ids id ≡ queued id s.tasks + others id)
        × (in_flight s.in_flight_ids id ≤ 1))
    × (length s.tasks ≤ config.queue_capacity)

in_flight-put :
    (id j : String) (n : ℕ) (m : Map ℕ)
    → in_flight (put id n m) j ≡ ite (text_dec id j) n (in_flight m j)
unfolding in_flight
in_flight-put id j n m = ground (arith, lookup-put id j n m)

in_flight-erase :
    (id j : String) (m : Map ℕ) → in_flight (erase id m) j ≡ ite (text_dec id j) 0 (in_flight m j)
unfolding in_flight
in_flight-erase id j m = ground (arith, lookup-erase id j m)

module _ (config : Config) (others : String → ℕ) where
  sent-IsCounted :
      (s : Scheduler) (id : String) (task : CollectionTask)
      → in_flight s.in_flight_ids id ≡ 0
      → task.group.id ≡ id
      → length s.tasks < config.queue_capacity
      → IsCounted config others s
      → IsCounted config others (record s {
        tasks = s.tasks ++ task ∷ [];
        in_flight_ids = put id (in_flight s.in_flight_ids id + 1) s.in_flight_ids;
      })
  unfolding IsCounted
  sent-IsCounted s id task free same room h = (
    λ j.
        let moved = total-append (λ t. one_if j t.group.id) s.tasks (task ∷ []) in
        let looked = in_flight-put id j (in_flight s.in_flight_ids id + 1) s.in_flight_ids in
        let before = h.0 j in
        let one : one_if j task.group.id ≡ one_if j id = ap (one_if j) same in
        elim (text_dec id j) [
          | yes e ↦
              let here : in_flight s.in_flight_ids j ≡ 0 =
                ap (in_flight s.in_flight_ids) (sym e) ∙ free in
              (ground (arith, moved, looked, before.0, one, here), ground (arith, looked, here))
          | no n ↦ (ground (arith, moved, looked, before.0, one), ground (arith, looked, before.1))
        ],
    omega (arith, length-append s.tasks (task ∷ [])),
  )

  offer-IsCounted :
      (sees_done : String → Bool) (now : Time) (e planned : GroupEntry) (s : Scheduler)
      → planned.group.id ≡ e.group.id
      → in_flight s.in_flight_ids e.group.id ≡ 0
      → IsCounted config others s
      → IsCounted config others (offer config sees_done now e planned s).1
  unfolding offer IsCounted
  offer-IsCounted sees_done now e planned s same free h = elim (Bool-cases (sees_done e.group.id)) [
    | inl t ↦ rw t h
    | inr f ↦ elim (Bool-cases (ltb (length s.tasks) config.queue_capacity)) [
      | inl room ↦ rw f (
          rw room (
            sent-IsCounted s e.group.id
              (record { group = planned.group; scheduled_at = e.next_run_at }) free same
              (ltb→lt (length s.tasks) config.queue_capacity room) h))
      | inr full ↦ rw f (rw full h)
    ]
  ]

  dispatch-IsCounted :
      (sees_done : String → Bool) (now : Time) (e : GroupEntry) (s : Scheduler)
      → IsCounted config others s
      → IsCounted config others (dispatch config sees_done now e s).1
  unfolding dispatch plan_next IsCounted
  dispatch-IsCounted sees_done now e s h =
      elim (Bool-cases (in_flight s.in_flight_ids e.group.id == 0)) [
        | inl t ↦ rw t (
            offer-IsCounted sees_done now e (plan_next now e)
              (record s { entries = put e.group.id (plan_next now e) s.entries }) refl
              ((==_iff (in_flight s.in_flight_ids e.group.id) 0).0 t) h)
        | inr f ↦ rw f h
      ]

  -- The report of a group that is in flight.
  release-IsCounted :
      (id : String) (s : Scheduler)
      → IsCounted config (λ j. one_if j id + others j) s
      → IsCounted config others (release id s)
  unfolding release IsCounted
  release-IsCounted id s h =
      let here : (one_if id id ≡ 1) = ground arith in
      let single : ltb 1 (in_flight s.in_flight_ids id) ≡ false = ground (arith, (h.0 id).1) in
      rw single (
        λ j.
            let looked = in_flight-erase id j s.in_flight_ids in
            let (exact, most) = h.0 j in
            elim (text_dec id j) [
              | yes e ↦ (ground (arith, looked, exact, most), ground (arith, looked))
              | no n ↦ (ground (arith, looked, exact), ground (arith, looked, most))
            ],
        h.1,
      )

  -- Tasks moved elsewhere are counted there.
  move-IsCounted :
      (others' : String → ℕ) (s : Scheduler) (tasks : List CollectionTask)
      → ((j : String) → queued j s.tasks + others j ≡ queued j tasks + others' j)
      → length tasks ≤ config.queue_capacity
      → IsCounted config others s
      → IsCounted config others' (record s { tasks = tasks })
  unfolding IsCounted
  move-IsCounted others' s tasks same room h = (λ j. ((h.0 j).0 ∙ same j, (h.0 j).1), room)

elsewhere : System → String → ℕ
elsewhere y id =
    total (one_if id) y.running + (reported id (in_hand y.activity) + reported id y.done)

-- The counter of every group is the number of its tasks, of its running collections and of its
-- reports, the one in hand included, and is at most 1. The queue, the workers and the channel of
-- reports are within their sizes.
unfoldable pub IsSingle : Config → System → Type 0
IsSingle config y =
    ((id : String)
      → (in_flight y.scheduler.in_flight_ids id ≡ pending id y)
        × (in_flight y.scheduler.in_flight_ids id ≤ 1))
    × ((length y.scheduler.tasks ≤ config.queue_capacity)
        × ((length y.running ≤ config.worker_count) × (length y.done ≤ config.worker_count)))

counted :
    (config : Config) (y : System) → IsSingle config y → IsCounted config (elsewhere y) y.scheduler
unfolding IsSingle IsCounted elsewhere
counted config y h = (h.0, h.1.0)

single :
    (config : Config) (y : System)
    → IsCounted config (elsewhere y) y.scheduler
    → length y.running ≤ config.worker_count
    → length y.done ≤ config.worker_count
    → IsSingle config y
unfolding IsSingle IsCounted elsewhere
single config y h r d = (h.0, (h.1, (r, d)))

-- What is elsewhere only moves.
moved :
    (config : Config) (others others' : String → ℕ) (s : Scheduler)
    → ((j : String) → others j ≡ others' j)
    → IsCounted config others s
    → IsCounted config others' s
unfolding IsCounted
moved config others others' s same h = (λ j. (omega (arith, (h.0 j).0, same j), (h.0 j).1), h.1)

handle_done-IsCounted :
    (config : Config) (others : String → ℕ) (now : Time) (id : String) (failed : Bool)
    (s : Scheduler)
    → IsCounted config (λ j. one_if j id + others j) s
    → IsCounted config others (handle_done config now id failed s)
unfolding handle_done IsCounted
handle_done-IsCounted config others now id failed s h =
    let r = release-IsCounted config others id s h in
    elim (Option-cases (lookup id s.entries)) [
      | inl n ↦ rw (n, handle_done) r
      | inr (e, n) ↦ rw (n, handle_done) r
    ]

-- The dispatcher has no report in hand before a pass, nor after it.
pass_empty : (go : Bool) (now : Time) → in_hand (if go then dispatching now else waiting) ≡ []
pass_empty true now = refl
pass_empty false now = refl

step-IsSingle :
    (sum64 : String → ℕ) (config : Config) (s t : System)
    → ◌⟶◌ sum64 config s t
    → IsSingle config s
    → IsSingle config t
unfolding IsSingle elsewhere replace_groups
step-IsSingle sum64 config s t (replaces now groups) h = h
step-IsSingle sum64 config s t (wakes now idle) h =
    single config t
      (moved config (elsewhere s) (elsewhere t) s.scheduler
        (λ j. omega (arith, ap (λ a. reported j (in_hand a)) idle)) (counted config s h))
      h.1.1.0 h.1.1.1
step-IsSingle sum64 config s t (passes now e sees_done busy due) h =
    single config t
      (dispatch-IsCounted config (elsewhere t) sees_done now e s.scheduler (
        moved config (elsewhere s) (elsewhere t) s.scheduler
          (λ j. omega (
            arith,
            ap (λ a. reported j (in_hand a)) busy,
            ap (reported j) (pass_empty (dispatch config sees_done now e s.scheduler).0 now),
          ))
          (counted config s h)))
      h.1.1.0 h.1.1.1
step-IsSingle sum64 config s t (rests now busy none_due) h =
    single config t
      (moved config (elsewhere s) (elsewhere t) s.scheduler
        (λ j. omega (arith, ap (λ a. reported j (in_hand a)) busy)) (counted config s h))
      h.1.1.0 h.1.1.1
step-IsSingle sum64 config s t (takes task tasks e room) h =
    let fewer : length s.scheduler.tasks ≡ suc (length tasks) = ap length e in
    single config t
      (move-IsCounted config (elsewhere s) (elsewhere t) s.scheduler tasks
        (λ j. omega (arith, ap (queued j) e)) (omega (arith, fewer, h.1.0)) (counted config s h))
      (omega arith) h.1.1.1
step-IsSingle sum64 config s t (reports before after id failed ran room) h =
    let fewer = ap length ran in
    single config t
      (moved config (elsewhere s) (elsewhere t) s.scheduler
        (λ j. omega (
          arith,
          ap (total (one_if j)) ran,
          total-append (one_if j) before (id ∷ after),
          total-append (one_if j) before after,
          total-append (λ r. one_if j r.group_id) s.done
              (record { group_id = id; failed = failed } ∷ []),
        ))
        (counted config s h))
      (omega (arith, fewer, length-append before after, length-append before (id ∷ after), h.1.1.0))
      (omega (arith, length-append s.done (record { group_id = id; failed = failed } ∷ [])))
step-IsSingle sum64 config s t (receives report done idle got) h =
    single config t
      (moved config (elsewhere s) (elsewhere t) s.scheduler
        (λ j. omega (arith, ap (λ a. reported j (in_hand a)) idle, ap (reported j) got))
        (counted config s h))
      h.1.1.0 (omega (arith, ap length got, h.1.1.1))
step-IsSingle sum64 config s t (handles now report busy) h =
    single config t
      (handle_done-IsCounted config (elsewhere t) now report.group_id report.failed s.scheduler (
        moved config (elsewhere s) (λ j. one_if j report.group_id + elsewhere t j) s.scheduler
          (λ j. omega (arith, ap (λ a. reported j (in_hand a)) busy)) (counted config s h)))
      h.1.1.0 h.1.1.1

-- In every state that the scheduler reaches from an empty one, between any two of the steps that hold
-- its lock, the counter of each group is the number of its tasks, running collections and reports, and
-- that is at most 1. The tasks are at most the capacity of the queue, and running collections and
-- reports in the channel at most the workers.
pub Reachable-IsSingle :
    (sum64 : String → ℕ) (config : Config) (s : System)
    → Reachable sum64 config s
    → IsSingle config s
unfolding IsSingle in_flight lookup
Reachable-IsSingle sum64 config s start =
    (λ id. (refl, omega arith), (omega arith, (omega arith, omega arith)))
Reachable-IsSingle sum64 config t (step {s} before next) =
    step-IsSingle sum64 config s t next (Reachable-IsSingle sum64 config s before)
