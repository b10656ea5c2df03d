-- ===== src/Schedule/Dispatch/Ends.antt =====
-- internal/scheduler/scheduler.go: the loop of dispatchDue as a whole, with no step of another
-- goroutine between its passes.
use zabbix_exporter.Prelude.{
  ℕ, zero, suc, ◌+◌, ◌^◌, ◌≤◌, ◌<◌, ◌≡◌, refl, sym, ap, ◌∙◌, subst, ◌⊎◌, inl, inr, String, Bool,
  true, false, false≢true, [], ◌∷◌, none, some, Map, lookup, put, All, All-lookup, All-put, put-put,
  put-Distinct, total, total-put_old, Option-cases, Bool-cases, ltb, ◌==◌, ltb→lt, if◌then◌else◌,
  arith, length,
}
use zabbix_exporter.Time.{Time, Duration, add_small}
use zabbix_exporter.Schedule.{collection_period}
use zabbix_exporter.Schedule.Cadence.{advance_planned, advance_planned-IsNextRun}
use zabbix_exporter.Schedule.State.{Config, GroupEntry, Scheduler, in_flight}
use zabbix_exporter.Schedule.Dispatch.{
  earliest, next_due, next_planned, plan_next, postpone, offer, dispatch, dispatch_from,
  dispatch_due,
}
use zabbix_exporter.Schedule.Dispatch.Root.{IsKeyed, earliest-none, earliest_least, earliest-lookup}

-- The delay of the group is below 2 ^ 62 nanoseconds, and its times are less than that before `now`.
abbrev pub IsNear : Time → GroupEntry → Type 0
IsNear now e =
    (e.group.delay < 2 ^ 62) × ((now < e.next_run_at + 2 ^ 62) × (now < e.next_cadence + 2 ^ 62))

abbrev pub IsReady : Time → Scheduler → Type 0
IsReady now s = IsKeyed s.entries × All (λ kv. IsNear now kv.1) s.entries

abbrev due_count : Time → String × GroupEntry → ℕ
due_count now kv = if ltb now kv.1.next_run_at then 0 else 1

pub period_small : (d : ℕ) → d < 2 ^ 62 → (0 < collection_period d) × (collection_period d < 2 ^ 62)
unfolding collection_period
period_small d h = (ground arith, ground arith)

advance_later :
    (t now d : ℕ)
    → d < 2 ^ 62
    → now < t + 2 ^ 62
    → now < advance_planned t (collection_period d) now
advance_later t now d h near =
    let p = period_small d h in
    (advance_planned-IsNextRun t (collection_period d) now p.0 p.1 near).1.0

next_planned_later : (now : Time) (e : GroupEntry) → IsNear now e → now < next_planned now e
unfolding next_planned
next_planned_later now e h =
    let a = advance_later e.next_run_at now e.group.delay h.0 h.1.0 in
    let b = advance_later e.next_cadence now e.group.delay h.0 h.1.1 in ground (arith, a, b)

-- A new state of a group's entry that is not due.
abbrev IsLater : Time → GroupEntry → GroupEntry → Type 0
IsLater now e f = (f.group.id ≡ e.group.id) × (IsNear now f × (now < f.next_run_at))

plan_next-IsLater : (now : Time) (e : GroupEntry) → IsNear now e → IsLater now e (plan_next now e)
unfolding plan_next
plan_next-IsLater now e h =
    let later = next_planned_later now e h in
    (refl, ((h.0, (omega (arith, later), omega (arith, later))), later))

postpone-IsLater :
    (now : Time) (base : Duration) (e f : GroupEntry)
    → 0 < base
    → base < 2 ^ 63
    → IsLater now e f
    → IsLater now e (postpone now base f)
unfolding postpone
postpone-IsLater now base e f p small h =
    let sum = add_small now base small in
    (h.0, ((h.1.0.0, (omega (arith, sum), h.1.0.1.0)), omega (arith, sum)))

not_due :
    (now t : Time) (m : Map GroupEntry)
    → now < t
    → All (λ kv. t ≤ kv.1.next_run_at) m
    → All (λ kv. now < kv.1.next_run_at) m
not_due now t [] h a = tt
not_due now t ((k, e) ∷ m) h a = (omega (arith, a.0), not_due now t m h a.1)

due_le : (now : Time) (m : Map GroupEntry) → total (due_count now) m ≤ length m
due_le now [] = omega arith
due_le now ((k, e) ∷ m) = ground (arith, due_le now m)

-- Where the loop may end: every entry is well placed, and none is due unless a `select` took the end
-- of the context.
abbrev pub IsDispatched : (String → Bool) → Time → Scheduler → Type 0
IsDispatched sees_done now s =
    IsReady now s
    × (((id : String) → sees_done id ≡ false) → All (λ kv. now < kv.1.next_run_at) s.entries)

module _ (config : Config) (sees_done : String → Bool) (now : Time) where
  offer_entries :
      (e f : GroupEntry) (s : Scheduler)
      → ((offer config sees_done now e f s).1.entries ≡ s.entries)
        ⊎ ((offer config sees_done now e f s).1.entries
            ≡ put e.group.id (postpone now config.retry_base f) s.entries)
  unfolding offer
  offer_entries e f s = elim (Bool-cases (sees_done e.group.id)) [
    | inl t ↦ inl (rw t refl)
    | inr n ↦ elim (Bool-cases (ltb (length s.tasks) config.queue_capacity)) [
      | inl t ↦ inl (rw n (rw t refl))
      | inr m ↦ inr (rw n (rw m refl))
    ]
  ]

  -- One pass replaces the entry by one that is not due.
  dispatch_entries :
      (e : GroupEntry) (s : Scheduler)
      → 0 < config.retry_base
      → config.retry_base < 2 ^ 63
      → IsNear now e
      → (f : GroupEntry) × IsLater now e f
        × ((dispatch config sees_done now e s).1.entries ≡ put e.group.id f s.entries)
  unfolding dispatch
  dispatch_entries e s p small near =
      let planned : GroupEntry = plan_next now e in
      let later : IsLater now e planned = plan_next-IsLater now e near in
      let queued : Scheduler = record s { entries = put e.group.id planned s.entries } in
      elim (Bool-cases (in_flight s.in_flight_ids e.group.id == 0)) [
        | inr f ↦ (planned, later, rw f refl)
        | inl t ↦ elim (offer_entries e planned queued) [
          | inl h ↦ (planned, later, rw t h)
          | inr h ↦ (
            postpone now config.retry_base planned,
            postpone-IsLater now config.retry_base e planned p small later,
            rw t (h ∙ put-put e.group.id _ planned s.entries),
          )
        ]
      ]

  put-IsReady :
      (e f : GroupEntry) (m : Map GroupEntry)
      → IsKeyed m × All (λ kv. IsNear now kv.1) m
      → IsLater now e f
      → IsKeyed (put e.group.id f m) × All (λ kv. IsNear now kv.1) (put e.group.id f m)
  put-IsReady e f m h later = (
    (
      put-Distinct e.group.id f m h.0.0,
      All-put (λ kv. kv.1.group.id ≡ kv.0) e.group.id f m h.0.1 later.0,
    ),
    All-put (λ kv. IsNear now kv.1) e.group.id f m h.1 later.1.0,
  )

  -- One entry fewer is due afterwards.
  put_due :
      (e f : GroupEntry) (m : Map GroupEntry)
      → lookup e.group.id m ≡ some e
      → ltb now e.next_run_at ≡ false
      → now < f.next_run_at
      → total (due_count now) (put e.group.id f m) + 1 ≡ total (due_count now) m
  put_due e f m h due later =
      let before : due_count now (e.group.id, e) ≡ 1 = rw due refl in
      let after : due_count now (e.group.id, f) ≡ 0 = ground arith in
      omega (arith, total-put_old (due_count now) e.group.id f e m h, before, after)

  next_due_cases :
      (m : Map GroupEntry)
      → ((next_due now m ≡ none) × All (λ kv. now < kv.1.next_run_at) m)
        ⊎ ((e : GroupEntry) × (next_due now m ≡ some e)
            × ((earliest m ≡ some e) × (ltb now e.next_run_at ≡ false)))
  unfolding next_due
  next_due_cases m = elim (Option-cases (earliest m)) [
    | inl n ↦ inl (
      rw (n, next_due) refl,
      subst (λ l. All (λ kv. now < kv.1.next_run_at) l) (sym (earliest-none m n)) tt,
    )
    | inr (e, h) ↦ elim (Bool-cases (ltb now e.next_run_at)) [
      | inl t ↦ inl (
        rw (h, next_due) (rw t refl),
        not_due now e.next_run_at m (ltb→lt now e.next_run_at t) (earliest_least m e h),
      )
      | inr f ↦ inr (e, rw (h, next_due) (rw f refl), (h, f))
    ]
  ]

  dispatch_goes_on :
      (e : GroupEntry) (s : Scheduler)
      → (dispatch config sees_done now e s).0 ≡ false
      → sees_done e.group.id ≡ true
  unfolding dispatch offer
  dispatch_goes_on e s h = ground arith

  dispatch_from-IsDispatched :
      (fuel : ℕ) (s : Scheduler)
      → 0 < config.retry_base
      → config.retry_base < 2 ^ 63
      → IsReady now s
      → total (due_count now) s.entries < fuel
      → (t : Scheduler) × (dispatch_from config sees_done now fuel s ≡ some t)
        × IsDispatched sees_done now t
  unfolding dispatch_from
  dispatch_from-IsDispatched zero s p small ready h = absurd (omega arith)
  dispatch_from-IsDispatched (suc fuel) s p small ready h = elim (next_due_cases s.entries) [
    | inl (n, all) ↦ (s, rw (n, dispatch_from) refl, (ready, λ x. all))
    | inr (e, n, (root, due)) ↦
        let found = earliest-lookup s.entries e ready.0 root in
        let near = All-lookup (λ kv. IsNear now kv.1) e.group.id e s.entries ready.1 found in
        let (f, later, entries') = dispatch_entries e s p small near in
        let next : Scheduler = (dispatch config sees_done now e s).1 in
        let ready' : IsReady now next =
          subst (λ m. IsKeyed m × All (λ kv. IsNear now kv.1) m) (sym entries')
            (put-IsReady e f s.entries ready later) in
        let fewer : total (due_count now) next.entries + 1 ≡ total (due_count now) s.entries =
          ap (λ m. total (due_count now) m + 1) entries'
          ∙ put_due e f s.entries found due later.1.1 in
        elim (Bool-cases (dispatch config sees_done now e s).0) [
          | inl go ↦
              let (t, ended, h') =
                dispatch_from-IsDispatched fuel next p small ready' (omega (arith, fewer)) in
              (t, rw (n, dispatch_from) (rw go ended), h')
          | inr stop ↦ (
            next,
            rw (n, dispatch_from) (rw stop refl),
            (
              ready',
              λ none_done.
                  absurd (false≢true (sym (none_done e.group.id) ∙ dispatch_goes_on e s stop)),
            ),
          )
        ]
  ]

  -- With a base delay between 0 and 2 ^ 63 nanoseconds, and entries that stand under their groups'
  -- ids and are less than 2 ^ 62 nanoseconds late, the loop of dispatchDue ends. The entries are
  -- still so, and if no `select` took the end of the context, all of them are to run after `now`.
  pub dispatch_due-IsDispatched :
      (s : Scheduler)
      → 0 < config.retry_base
      → config.retry_base < 2 ^ 63
      → IsReady now s
      → (t : Scheduler) × (dispatch_due config sees_done now s ≡ some t)
        × IsDispatched sees_done now t
  unfolding dispatch_due
  dispatch_due-IsDispatched s p small ready =
      dispatch_from-IsDispatched (suc (length s.entries)) s p small ready
        (omega (arith, due_le now s.entries))
