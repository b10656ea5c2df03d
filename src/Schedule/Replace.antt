-- ===== src/Schedule/Replace.antt =====
-- internal/scheduler/scheduler.go: ReplaceGroups, which keeps the run times of the groups that
-- stay. `RetainGroups` of the executor is called with the values of `desired_groups`.
pub mod Ready
use zabbix_exporter.Prelude.{
  ℕ, String, Bool, true, false, ◌&&◌, ◌||◌, not, List, [], ◌∷◌, none, some, Map, lookup, put,
  text_eq, ◌==◌, if◌then◌else◌, length,
}
use zabbix_exporter.Time.{Time, Duration, add}
use zabbix_exporter.Schedule.{collection_period}
use zabbix_exporter.Schedule.Cadence.{next_run_after, bootstrap_run_at}
use zabbix_exporter.Schedule.State.{Group, GroupEntry, Scheduler, Config, groups_equal}

unfoldable pub is_schedulable : Group → Bool
is_schedulable g = not (text_eq g.id "" || g.delay == 0 || length g.batches == 0)

-- The map filled from the groups that can be scheduled; a later group replaces one of the same id.
unfoldable pub desire : List Group → Map Group → Map Group
unfolding is_schedulable
desire [] desired = desired
desire (g ∷ groups) desired =
    desire groups (if is_schedulable g then put g.id g desired else desired)

unfoldable pub desired_groups : List Group → Map Group
unfolding desire
desired_groups groups = desire groups []

module _ (sum64 : String → ℕ) (config : Config) (now : Time) where
  unfoldable pub new_entry : Group → GroupEntry
  new_entry g =
      let period : Duration = collection_period g.delay in
      let first_run : Time = bootstrap_run_at sum64 now g.id period config.bootstrap_spread in
      record {
        group = g;
        next_run_at = first_run;
        next_cadence = add first_run period;
        retrying = false;
        failures = 0;
        last_planned = 0;
      }

  unfoldable pub must_replan : GroupEntry → Group → Bool
  must_replan e g =
      not (collection_period e.group.delay == collection_period g.delay)
      || (not (groups_equal e.group g) && e.next_run_at == 0)

  unfoldable pub replan : GroupEntry → Group → GroupEntry
  replan e g =
      let period : Duration = collection_period g.delay in
      let next : Time = next_run_after sum64 now g.id period in
      record e { group = g; next_run_at = next; next_cadence = add next period; retrying = false }

  unfoldable pub keep_entry : GroupEntry → Group → GroupEntry
  unfolding must_replan replan
  keep_entry e g = if must_replan e g then replan e g else record e { group = g }

  unfoldable pub renew : Map GroupEntry → Map Group → Map GroupEntry
  unfolding new_entry keep_entry
  renew old [] = []
  renew old ((id, g) ∷ desired) = elim (lookup id old) [
    | none ↦ (id, new_entry g) ∷ renew old desired
    | some e ↦ (id, keep_entry e g) ∷ renew old desired
  ]

  unfoldable pub replace_groups : List Group → Scheduler → Scheduler
  unfolding renew desired_groups
  replace_groups groups s = record s { entries = renew s.entries (desired_groups groups) }
