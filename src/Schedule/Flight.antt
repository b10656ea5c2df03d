-- ===== src/Schedule/Flight.antt =====
-- internal/scheduler/scheduler.go and worker_pool.go: the dispatcher and its workers as a system of
-- steps. A task goes from the queue to a worker, and its report from there to the dispatcher.
pub mod Single
use zabbix_exporter.Prelude.{
  ℕ, zero, suc, ◌+◌, ◌≤◌, ◌<◌, ◌≡◌, refl, sym, ap, ◌∙◌, subst, ◌⊎◌, inl, inr, String, Bool, true,
  false, List, [], ◌∷◌, ◌++◌, Option, none, some, lookup, put, erase, lookup-put, lookup-erase, ite,
  text_dec, total, total-append, length, length-append, Option-cases, Bool-cases, ltb, ◌==◌, ltb→lt,
  if◌then◌else◌, arith,
}
use mathlib.Core.Option.{some-injective}
use zabbix_exporter.Time.{Time}
use zabbix_exporter.Schedule.State.{
  Config, Group, GroupEntry, CollectionTask, Scheduler, in_flight, empty_scheduler,
}
use zabbix_exporter.Schedule.Replace.{replace_groups}
use zabbix_exporter.Schedule.Dispatch.{next_due, dispatch, handle_done}

pub record CollectionDone : Type 0 where
  pub group_id : String
  pub failed : Bool

-- What the goroutine of the dispatcher does: it waits, it is in the loop of dispatchDue with the time
-- that it read there, or it has a report that it has not handled yet.
pub data Activity : Type 0 where
  waiting : Activity
  dispatching : Time → Activity
  handling : CollectionDone → Activity

-- The scheduler, the dispatcher, the ids of the groups that workers collect, and the channel of reports.
pub record System : Type 0 where
  pub scheduler : Scheduler
  pub activity : Activity
  pub running : List String
  pub done : List CollectionDone

-- Each part of the code that holds the scheduler's lock is one step: a replacement of the groups, one
-- pass of the loop of dispatchDue, the handling of a report. Between two passes the lock is free, and
-- every other step but those of the dispatcher itself can come.
module _ (sum64 : String → ℕ) (config : Config) where
  infix 40 ◌⟶◌
  pub data ◌⟶◌ : System → System → Type 0 where
    replaces :
        {y : System} (now : Time) (groups : List Group)
        → y ⟶ record y { scheduler = replace_groups sum64 config now groups y.scheduler }
    wakes :
        {y : System} (now : Time)
        → y.activity ≡ waiting
        → y ⟶ record y { activity = dispatching now }
    passes :
        {y : System} (now : Time) (e : GroupEntry) (sees_done : String → Bool)
        → y.activity ≡ dispatching now
        → next_due now y.scheduler.entries ≡ some e
        → y ⟶ record y {
          scheduler = (dispatch config sees_done now e y.scheduler).1;
          activity =
              if (dispatch config sees_done now e y.scheduler).0 then dispatching now else waiting;
        }
    rests :
        {y : System} (now : Time)
        → y.activity ≡ dispatching now
        → next_due now y.scheduler.entries ≡ none
        → y ⟶ record y { activity = waiting }
    takes :
        {y : System} (task : CollectionTask) (tasks : List CollectionTask)
        → y.scheduler.tasks ≡ task ∷ tasks
        → length y.running < config.worker_count
        → y ⟶ record y {
          scheduler = record (y.scheduler) { tasks = tasks };
          running = task.group.id ∷ y.running;
        }
    reports :
        {y : System} (before after : List String) (id : String) (failed : Bool)
        → y.running ≡ before ++ id ∷ after
        → length y.done < config.worker_count
        → y ⟶ record y {
          running = before ++ after;
          done = y.done ++ record { group_id = id; failed = failed } ∷ [];
        }
    receives :
        {y : System} (report : CollectionDone) (done : List CollectionDone)
        → y.activity ≡ waiting
        → y.done ≡ report ∷ done
        → y ⟶ record y { activity = handling report; done = done }
    handles :
        {y : System} (now : Time) (report : CollectionDone)
        → y.activity ≡ handling report
        → y ⟶ record y {
          scheduler = handle_done config now report.group_id report.failed y.scheduler;
          activity = waiting;
        }

  abbrev initial : System
  initial = record { scheduler = empty_scheduler; activity = waiting; running = []; done = [] }

  pub data Reachable : System → Type 0 where
    start : Reachable initial
    step : {s t : System} → Reachable s → s ⟶ t → Reachable t

-- How often a group stands among the tasks, the running collections and the reports.
abbrev pub one_if : String → String → ℕ
one_if id j = ite (text_dec j id) 1 0

abbrev pub queued : String → List CollectionTask → ℕ
queued id tasks = total (λ task. one_if id task.group.id) tasks

abbrev pub reported : String → List CollectionDone → ℕ
reported id done = total (λ r. one_if id r.group_id) done

-- The report that the dispatcher has received and not yet handled.
abbrev pub in_hand : Activity → List CollectionDone
in_hand waiting = []
in_hand (dispatching now) = []
in_hand (handling report) = report ∷ []

abbrev pub pending : String → System → ℕ
pending id y =
    queued id y.scheduler.tasks
    + (total (one_if id) y.running + (reported id (in_hand y.activity) + reported id y.done))
