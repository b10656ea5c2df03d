-- ===== src/Tests/Scheduled.antt =====
-- The theorems on the scheduler, at one group.
use zabbix_exporter.Prelude.{
  ℕ, ◌+◌, ◌*◌, ◌-◌, ◌^◌, ◌%◌, ◌<◌, ◌≤◌, ◌≡◌, refl, subst, String, Bool, true, false, [], ◌∷◌, some,
  pos, lookup, put, text_dec, arith, if◌then◌else◌,
}
use Prim.Native.Nat.{min}
use zabbix_exporter.Time.{add, Time, second, minute, unix_epoch}
use zabbix_exporter.Schedule.{collection_period, stable_offset}
use zabbix_exporter.Schedule.Cadence.{
  IsNextRun, advance_planned, advance_planned-IsNextRun, next_run_after, next_run_after_offset,
  retry_delay, retry_delay-min, bootstrap_run_at,
}
use zabbix_exporter.Schedule.State.{
  Config, Group, GroupEntry, CollectionTask, Scheduler, Settings, Setup, empty_scheduler,
  new_scheduler,
}
use zabbix_exporter.Schedule.Replace.{replace_groups}
use zabbix_exporter.Schedule.Replace.Ready.{
  IsUsable, new_scheduler-IsUsable, replace_groups-IsReady,
}
use zabbix_exporter.Schedule.Dispatch.{next_due, dispatch, dispatch_due}
use zabbix_exporter.Schedule.Dispatch.Ends.{IsReady, IsDispatched, dispatch_due-IsDispatched}
use zabbix_exporter.Schedule.Flight.{
  System, waiting, dispatching, replaces, wakes, passes, takes, Reachable, start, step,
}
use zabbix_exporter.Schedule.Flight.Single.{IsSingle, Reachable-IsSingle}

abbrev no_hash : String → ℕ
no_hash s = 0

abbrev pub noon : Time
noon = 63_900_000_000 * second

abbrev config : Config
config = record {
  batch_size = 50;
  worker_count = 4;
  queue_capacity = 128;
  retry_base = 5 * second;
  retry_max = 5 * minute;
  bootstrap_spread = minute;
}

abbrev pub group_a : Group
group_a = record {
  id = "a";
  host_id = "h";
  value_type = 0;
  delay = minute;
  batches = record { id = "b"; item_ids = "i" ∷ [] } ∷ [];
  version = 1;
}

abbrev entry_a : GroupEntry
entry_a = record {
  group = group_a;
  next_run_at = noon;
  next_cadence = noon + minute;
  retrying = false;
  failures = 0;
  last_planned = 0;
}

abbrev task_a : CollectionTask
task_a = record { group = group_a; scheduled_at = noon }

abbrev filled : Scheduler
filled = record { entries = ("a", entry_a) ∷ []; in_flight_ids = []; tasks = [] }

abbrev dispatched : Scheduler
dispatched = record {
  entries =
      (
        "a",
        record entry_a {
          next_run_at = noon + minute;
          next_cadence = noon + minute;
          last_planned = noon;
        },
      )
      ∷ [];
  in_flight_ids = ("a", 1) ∷ [];
  tasks = task_a ∷ [];
}

abbrev never : String → Bool
never id = false

filled_by : replace_groups no_hash config noon (group_a ∷ []) empty_scheduler ≡ filled
unfolding replace_groups put lookup bootstrap_run_at add collection_period stable_offset
filled_by = refl

due_by : next_due noon filled.entries ≡ some entry_a
unfolding next_due
due_by = refl

dispatched_by : dispatch config never noon entry_a filled ≡ (true, dispatched)
unfolding dispatch lookup put text_dec advance_planned add collection_period
dispatched_by = refl

filled-IsReady : IsReady noon filled
unfolding lookup
filled-IsReady = (((refl, tt), (refl, tt)), ((omega arith, (omega arith, omega arith)), tt))

empty-IsReady : IsReady noon empty_scheduler
empty-IsReady = ((tt, tt), tt)

replace_groups-IsReady_example :
    IsReady noon (replace_groups no_hash config noon (group_a ∷ []) empty_scheduler)
replace_groups-IsReady_example =
    replace_groups-IsReady no_hash config noon (group_a ∷ []) empty_scheduler (omega arith)
      (omega arith, tt) empty-IsReady

dispatch_due-IsDispatched_example :
    (t : Scheduler) × (dispatch_due config never noon filled ≡ some t) × IsDispatched never noon t
dispatch_due-IsDispatched_example =
    dispatch_due-IsDispatched config never noon filled (omega arith) (omega arith) filled-IsReady

abbrev resting : Scheduler → System
resting s = record { scheduler = s; activity = waiting; running = []; done = [] }

-- A pass has queued the task, and a worker takes it before the next pass.
abbrev taken : System
taken = record {
  scheduler = record dispatched { tasks = [] };
  activity = dispatching noon;
  running = "a" ∷ [];
  done = [];
}

passed-Reachable :
    Reachable no_hash config (record (resting dispatched) { activity = dispatching noon })
passed-Reachable =
    subst
      (λ r.
        Reachable no_hash config
          (record (resting r.1) { activity = if r.0 then dispatching noon else waiting }))
      dispatched_by
      (step
        (step
          (subst (λ s. Reachable no_hash config (resting s)) filled_by
            (step start (replaces noon (group_a ∷ []))))
          (wakes noon refl))
        (passes noon entry_a never refl due_by))

taken-Reachable : Reachable no_hash config taken
taken-Reachable = step passed-Reachable (takes task_a [] refl (omega arith))

Reachable-IsSingle_example : IsSingle config taken
Reachable-IsSingle_example = Reachable-IsSingle no_hash config taken taken-Reachable

advance_planned-IsNextRun_example :
    IsNextRun noon minute (noon + 150 * second) (advance_planned noon minute (noon + 150 * second))
advance_planned-IsNextRun_example =
    advance_planned-IsNextRun noon minute (noon + 150 * second) (omega arith) (omega arith)
      (omega arith)

next_run_after_offset_example :
    (noon < next_run_after no_hash noon "a" minute)
    × ((next_run_after no_hash noon "a" minute ≤ noon + minute)
        × ((next_run_after no_hash noon "a" minute - unix_epoch) % minute
            ≡ stable_offset no_hash "a" minute))
next_run_after_offset_example =
    next_run_after_offset no_hash noon "a" minute (omega arith) (omega arith) (omega arith)

retry_delay-min_example :
    retry_delay (5 * second) (5 * minute) 3 ≡ min (5 * second * 2 ^ 2) (5 * minute)
retry_delay-min_example = retry_delay-min (5 * second) (5 * minute) 2 (omega arith) (omega arith)

abbrev settings : Settings
settings = record {
  batch_size = pos 50;
  worker_count = pos 0;
  queue_capacity = pos 0;
  retry_base = pos 0;
  retry_max = pos 0;
  bootstrap_spread = pos 0;
}

created_by : new_scheduler true settings ≡ Setup.created config
unfolding new_scheduler
created_by = refl

new_scheduler-IsUsable_example : (true ≡ true) × IsUsable config
new_scheduler-IsUsable_example = new_scheduler-IsUsable true settings config created_by
