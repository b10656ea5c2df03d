-- ===== src/Schedule/Replace/Ready.antt =====
-- internal/scheduler/scheduler.go: what ReplaceGroups and NewScheduler leave for the dispatcher.
use zabbix_exporter.Prelude.{
  ℕ, ◌^◌, ◌≤◌, ◌<◌, ◌≡◌, refl, ap, ◌∙◌, subst, inl, inr, String, Bool, true, false, List, [], ◌∷◌,
  none, some, Map, lookup, put, Distinct, put-Distinct, All, All-put, All-lookup, Option-cases,
  Bool-cases, ltb, ◌==◌, arith, ℤ, pos, negsuc,
}
use zabbix_exporter.Time.{Time, unix_epoch, add_small}
use zabbix_exporter.Schedule.{collection_period, new_group_builder, default_batch_size}
use zabbix_exporter.Schedule.Cadence.{
  next_run_after, bootstrap_run_at, next_run_after_offset, bootstrap_run_at_within,
}
use zabbix_exporter.Schedule.State.{
  default_worker_count, default_queue_capacity, default_retry_base, default_retry_max,
  default_bootstrap_spread, Config, Settings, Setup, SetupError, Group, GroupEntry, Scheduler,
  check_settings, new_scheduler, or_default, positive, not_negative,
}
use zabbix_exporter.Schedule.Replace.{
  is_schedulable, desire, desired_groups, new_entry, must_replan, replan, keep_entry, renew,
  replace_groups,
}
use zabbix_exporter.Schedule.Dispatch.Root.{IsKeyed}
use zabbix_exporter.Schedule.Dispatch.Ends.{IsNear, IsReady, period_small}

-- A configuration that the scheduler can run with.
abbrev pub IsUsable : Config → Type 0
IsUsable c =
    (0 < c.batch_size)
    × ((0 < c.worker_count)
        × ((0 < c.queue_capacity)
            × ((0 < c.retry_base) × ((c.retry_base ≤ c.retry_max) × (0 < c.bootstrap_spread)))))

positive-some : (z : ℤ) (n : ℕ) → positive z ≡ some n → 0 < n
unfolding positive
positive-some (pos k) n h = ground arith
positive-some (negsuc k) n h = absurd cc

default_some :
    (standard : ℕ) (z : ℤ) (n : ℕ)
    → 0 < standard
    → not_negative (or_default standard z) ≡ some n
    → 0 < n
unfolding or_default not_negative
default_some standard (pos k) n p h = elim (Bool-cases (k == 0)) [
  | inl t ↦ ground (arith, rw t at h)
  | inr f ↦ ground (arith, rw f at h)
]
default_some standard (negsuc k) n p h = absurd cc

builder_some : (z : ℤ) (n : ℕ) → new_group_builder z ≡ some n → 0 < n
unfolding new_group_builder
builder_some (pos k) n h = ground arith
builder_some (negsuc k) n h = absurd cc

config_of : Config → Setup → Config
config_of d (Setup.refused e) = d
config_of d (Setup.created c) = c

created_inj : (c d : Config) → Setup.created c ≡ Setup.created d → c ≡ d
unfolding config_of
created_inj c d h = ap (config_of c) h

not_created : (e : SetupError) (c : Config) → ¬ (Setup.refused e ≡ Setup.created c)
not_created e c h = cc

check_settings-IsUsable :
    (g : Settings) (c : Config) → check_settings g ≡ Setup.created c → IsUsable c
unfolding check_settings
check_settings-IsUsable g c h =
    elim (Option-cases (positive (or_default default_worker_count g.worker_count))) [
      | inl n ↦ absurd (not_created _ c (rw (n, check_settings) at h))
      | inr (workers, w) ↦
          let h1 = rw (w, check_settings) at h in
          elim (Option-cases (positive (or_default default_queue_capacity g.queue_capacity))) [
            | inl n ↦ absurd (not_created _ c (rw n at h1))
            | inr (capacity, q) ↦
                let h2 = rw q at h1 in
                elim (Option-cases (not_negative (or_default default_retry_base g.retry_base))) [
                  | inl n ↦ absurd (not_created _ c (rw n at h2))
                  | inr (base, b) ↦
                      let h3 = rw b at h2 in
                      elim (Option-cases
                        (not_negative (or_default default_retry_max g.retry_max))) [
                          | inl n ↦ absurd (not_created _ c (rw n at h3))
                          | inr (maximum, m) ↦
                              let h4 = rw m at h3 in
                              elim (Bool-cases (ltb maximum base)) [
                                | inl t ↦ absurd (not_created _ c (rw t at h4))
                                | inr f ↦
                                    let h5 = rw f at h4 in
                                    elim (Option-cases (
                                      not_negative
                                        (or_default default_bootstrap_spread g.bootstrap_spread))) [
                                          | inl n ↦ absurd (not_created _ c (rw n at h5))
                                          | inr (spread, p) ↦
                                              let h6 = rw p at h5 in
                                              elim (Option-cases (
                                                new_group_builder
                                                  (or_default default_batch_size g.batch_size))) [
                                                    | inl n ↦ absurd (not_created _ c (rw n at h6))
                                                    | inr (size, z) ↦
                                                        subst IsUsable
                                                          (created_inj _ c (rw z at h6))
                                                          (
                                                            builder_some
                                                            (or_default default_batch_size
                                                            g.batch_size)
                                                            size z,
                                                            (
                                                            positive-some
                                                            (or_default default_worker_count
                                                            g.worker_count)
                                                            workers w,
                                                            (
                                                            positive-some
                                                            (or_default default_queue_capacity
                                                            g.queue_capacity)
                                                            capacity q,
                                                            (
                                                            default_some default_retry_base
                                                            g.retry_base base (omega arith) b,
                                                            (
                                                            ground arith,
                                                            default_some default_bootstrap_spread
                                                            g.bootstrap_spread spread (omega arith)
                                                            p,
                                                            ),
                                                            ),
                                                            ),
                                                            ),
                                                          )
                                                  ]
                                        ]
                              ]
                        ]
                ]
          ]
    ]

-- A scheduler is only created with an executor, and then with positive sizes, a positive base delay
-- that is not above the maximum, and a positive spread.
pub new_scheduler-IsUsable :
    (has_executor : Bool) (g : Settings) (c : Config)
    → new_scheduler has_executor g ≡ Setup.created c
    → (has_executor ≡ true) × IsUsable c
unfolding new_scheduler
new_scheduler-IsUsable true g c h = (refl, check_settings-IsUsable g c h)
new_scheduler-IsUsable false g c h = absurd (not_created _ c h)

-- Every group stands under its id, with a delay of less than 2 ^ 62 nanoseconds.
IsDesired : Map Group → Type 0
IsDesired m = Distinct m × All (λ kv. (kv.1.id ≡ kv.0) × (kv.1.delay < 2 ^ 62)) m

desire-IsDesired :
    (groups : List Group) (m : Map Group)
    → All (λ g. g.delay < 2 ^ 62) groups
    → IsDesired m
    → IsDesired (desire groups m)
unfolding desire IsDesired
desire-IsDesired [] m h d = d
desire-IsDesired (g ∷ groups) m h d = elim (Bool-cases (is_schedulable g)) [
  | inl t ↦ rw t (
      desire-IsDesired groups (put g.id g m) h.1 (
        put-Distinct g.id g m d.0,
        All-put (λ kv. (kv.1.id ≡ kv.0) × (kv.1.delay < 2 ^ 62)) g.id g m d.1 (refl, h.0),
      ))
  | inr f ↦ rw f (desire-IsDesired groups m h.1 d)
]

module _ (sum64 : String → ℕ) (config : Config) (now : Time) where
  IsFor : String → Group → GroupEntry → Type 0
  IsFor id g e = (e.group.id ≡ id) × IsNear now e

  new_entry-IsFor : (g : Group) → g.delay < 2 ^ 62 → IsFor g.id g (new_entry sum64 config now g)
  unfolding new_entry IsFor
  new_entry-IsFor g small =
      let p = period_small g.delay small in
      let first =
        bootstrap_run_at_within sum64 now g.id (collection_period g.delay) config.bootstrap_spread
          p.0 (omega (arith, p.1)) in
      let sum =
        add_small
          (bootstrap_run_at sum64 now g.id (collection_period g.delay) config.bootstrap_spread)
          (collection_period g.delay) (omega (arith, p.1)) in
      (refl, (small, (omega (arith, first.0), omega (arith, first.0, sum))))

  keep_entry-IsFor :
      (e : GroupEntry) (g : Group)
      → unix_epoch ≤ now
      → g.delay < 2 ^ 62
      → IsNear now e
      → IsFor g.id g (keep_entry sum64 config now e g)
  unfolding keep_entry IsFor replan
  keep_entry-IsFor e g late small near = elim (Bool-cases (must_replan sum64 config now e g)) [
    | inr f ↦ rw f (refl, (small, near.1))
    | inl t ↦
        let p = period_small g.delay small in
        let next =
          next_run_after_offset sum64 now g.id (collection_period g.delay) late p.0
            (omega (arith, p.1)) in
        let sum =
          add_small (next_run_after sum64 now g.id (collection_period g.delay))
            (collection_period g.delay) (omega (arith, p.1)) in
        rw t (refl, (small, (omega (arith, next.0), omega (arith, next.0, sum))))
  ]

  renew_absent :
      (old : Map GroupEntry) (k : String) (m : Map Group)
      → lookup k m ≡ none
      → lookup k (renew sum64 config now old m) ≡ none
  unfolding renew lookup
  renew_absent old k [] h = refl
  renew_absent old k ((id, g) ∷ m) h = elim (Option-cases (lookup id old)) [
    | inl n ↦ rw (n, renew) (ground (arith, renew_absent old k m))
    | inr (e, n) ↦ rw (n, renew) (ground (arith, renew_absent old k m))
  ]

  renew-IsReady :
      (old : Map GroupEntry) (m : Map Group)
      → unix_epoch ≤ now
      → All (λ kv. IsNear now kv.1) old
      → IsDesired m
      → IsKeyed (renew sum64 config now old m)
        × All (λ kv. IsNear now kv.1) (renew sum64 config now old m)
  unfolding renew IsDesired IsFor
  renew-IsReady old [] late near d = ((tt, tt), tt)
  renew-IsReady old ((id, g) ∷ m) late near d =
      let rest = renew-IsReady old m late near (d.0.1, d.1.1) in
      let absent = renew_absent old id m d.0.0 in
      elim (Option-cases (lookup id old)) [
        | inl n ↦
            let (key, here) = new_entry-IsFor g d.1.0.1 in
            rw (n, renew) (((absent, rest.0.0), (key ∙ d.1.0.0, rest.0.1)), (here, rest.1))
        | inr (e, n) ↦
            let (key, here) =
              keep_entry-IsFor e g late d.1.0.1
                (All-lookup (λ kv. IsNear now kv.1) id e old near n) in
            rw (n, renew) (((absent, rest.0.0), (key ∙ d.1.0.0, rest.0.1)), (here, rest.1))
      ]

  -- After 1970, with delays of less than 2 ^ 62 nanoseconds, replacing the groups leaves
  -- entries that stand under their groups' ids, and are less than 2 ^ 62 nanoseconds late, if the
  -- entries before were.
  pub replace_groups-IsReady :
      (groups : List Group) (s : Scheduler)
      → unix_epoch ≤ now
      → All (λ g. g.delay < 2 ^ 62) groups
      → IsReady now s
      → IsReady now (replace_groups sum64 config now groups s)
  unfolding replace_groups desired_groups IsDesired
  replace_groups-IsReady groups s late small ready =
      renew-IsReady s.entries (desired_groups groups) late ready.1
        (desire-IsDesired groups [] small (tt, tt))
