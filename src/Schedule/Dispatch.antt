-- ===== src/Schedule/Dispatch.antt =====
-- internal/scheduler/scheduler.go: dispatchDue, handleDone and nextWait. The entry at the root of the
-- heap is the first one by `less`, as container/heap keeps it.
pub mod Root
pub mod Ends
use Prim.Native.String.{compare}
use Prim.Native.Nat.{Ordering}
use zabbix_exporter.Prelude.{
  text_less, ℕ, zero, suc, ◌+◌, ◌*◌, ◌-◌, ◌^◌, ◌%◌, String, Bool, true, false, List, [], ◌∷◌, ◌++◌,
  Option, none, some, Map, lookup, put, erase, ltb, leb, ◌==◌, if◌then◌else◌, length,
}
use zabbix_exporter.Time.{Time, Duration, add, since, hour}
use zabbix_exporter.Schedule.{collection_period}
use zabbix_exporter.Schedule.Cadence.{advance_planned, retry_delay}
use zabbix_exporter.Schedule.State.{Config, GroupEntry, CollectionTask, Scheduler, in_flight}

unfoldable pub less : GroupEntry → GroupEntry → Bool
less a b =
    if a.next_run_at == b.next_run_at
    then text_less a.group.id b.group.id
    else ltb a.next_run_at b.next_run_at

-- The first entry by `less`.
unfoldable pub earliest : Map GroupEntry → Option GroupEntry
unfolding less
earliest [] = none
earliest ((id, e) ∷ entries) = elim (earliest entries) [
  | none ↦ some e
  | some f ↦ some (if less f e then f else e)
]

-- The root of the heap, if its time has come.
unfoldable pub next_due : Time → Map GroupEntry → Option GroupEntry
unfolding earliest
next_due now entries = elim (earliest entries) [
  | none ↦ none
  | some e ↦ if ltb now e.next_run_at then none else some e
]

unfoldable pub next_planned : Time → GroupEntry → Time
next_planned now e =
    let period : Duration = collection_period e.group.delay in
    if e.retrying
    then if ltb now e.next_cadence
      then e.next_cadence
      else advance_planned e.next_cadence period now
    else advance_planned e.next_run_at period now

unfoldable pub plan_next : Time → GroupEntry → GroupEntry
unfolding next_planned
plan_next now e =
    let next : Time = next_planned now e in
    record e {
      next_run_at = next;
      next_cadence = next;
      retrying = false;
      last_planned = e.next_run_at;
    }

-- The task queue was full: the group is tried again after the base delay.
unfoldable pub postpone : Time → Duration → GroupEntry → GroupEntry
postpone now retry_base e = record e {
  next_run_at = add now retry_base;
  next_cadence = e.next_run_at;
  retrying = true;
}

-- `sees_done` is whether the `select` for a group's task takes `ctx.Done()`, by the group's id.
module _ (config : Config) (sees_done : String → Bool) (now : Time) where
  -- The `select`: the queue has room, the context is done, or the queue is full.
  unfoldable pub offer : GroupEntry → GroupEntry → Scheduler → Bool × Scheduler
  unfolding postpone in_flight
  offer e planned s =
      if sees_done e.group.id
      then (false, s)
      else if ltb (length s.tasks) config.queue_capacity
      then (
        true,
        record s {
          tasks = s.tasks ++ record { group = planned.group; scheduled_at = e.next_run_at } ∷ [];
          in_flight_ids = put e.group.id (in_flight s.in_flight_ids e.group.id + 1) s.in_flight_ids;
        },
      )
      else (
        true,
        record s { entries = put e.group.id (postpone now config.retry_base planned) s.entries },
      )

  -- One pass of the loop, on the entry at the root; `false` when dispatchDue returns from it.
  unfoldable pub dispatch : GroupEntry → Scheduler → Bool × Scheduler
  unfolding plan_next offer
  dispatch e s =
      let planned : GroupEntry = plan_next now e in
      let queued : Scheduler = record s { entries = put e.group.id planned s.entries } in
      if in_flight s.in_flight_ids e.group.id == 0 then offer e planned queued else (true, queued)

  unfoldable pub dispatch_from : ℕ → Scheduler → Option Scheduler
  unfolding next_due dispatch
  dispatch_from zero s = none
  dispatch_from (suc fuel) s = elim (next_due now s.entries) [
    | none ↦ some s
    | some e ↦
        let r : Bool × Scheduler = dispatch e s in
        let rest : Option Scheduler = dispatch_from fuel r.1 in if r.0 then rest else some r.1
  ]

  unfoldable pub dispatch_due : Scheduler → Option Scheduler
  unfolding dispatch_from
  dispatch_due s = dispatch_from (suc (length s.entries)) s

-- `failures` is a uint32.
unfoldable pub count_failure : Config → Time → GroupEntry → GroupEntry
count_failure config now e =
    let failures' : ℕ = (e.failures + 1) % 2 ^ 32 in
    let retry_at : Time = add now (retry_delay config.retry_base config.retry_max failures') in
    if ltb retry_at e.next_run_at
    then record e {
      failures = failures';
      next_cadence = e.next_run_at;
      next_run_at = retry_at;
      retrying = true;
    }
    else record e { failures = failures' }

unfoldable pub release : String → Scheduler → Scheduler
unfolding in_flight
release id s =
    if ltb 1 (in_flight s.in_flight_ids id)
    then record s { in_flight_ids = put id (in_flight s.in_flight_ids id - 1) s.in_flight_ids }
    else record s { in_flight_ids = erase id s.in_flight_ids }

-- `failed` is whether the collection ended in an error.
unfoldable pub handle_done : Config → Time → String → (failed : Bool) → Scheduler → Scheduler
unfolding count_failure release
handle_done config now id failed s =
    let released : Scheduler = release id s in
    elim (lookup id s.entries) [
      | none ↦ released
      | some e ↦ record released {
        entries =
            put id (if failed then count_failure config now e else record e { failures = 0 })
              s.entries;
      }
    ]

unfoldable pub next_wait : Time → Scheduler → Duration
unfolding earliest
next_wait now s = elim (earliest s.entries) [ none ↦ 24 * hour | some e ↦ since e.next_run_at now ]
