-- ===== src/Schedule/Dispatch/Root.antt =====
-- internal/scheduler/scheduler.go: the entry at the root of the heap.
use zabbix_exporter.Prelude.{
  ◌≤◌, ◌≡◌, refl, sym, ap, ◌∙◌, ◌⊎◌, inl, inr, String, subst, if_pos, true, false, [], ◌∷◌, none,
  some, Map, lookup, Distinct, All, Option-cases, Bool-cases, if◌then◌else◌, arith, text_dec,
}
use mathlib.Core.Option.{some-injective}
use zabbix_exporter.Schedule.State.{GroupEntry}
use zabbix_exporter.Schedule.Dispatch.{earliest, less}
use zabbix_exporter.Time.{Time}

-- Every entry stands under its group's id, and under no other.
abbrev pub IsKeyed : Map GroupEntry → Type 0
IsKeyed m = Distinct m × All (λ kv. kv.1.group.id ≡ kv.0) m

empty_root : (e : GroupEntry) → ¬ (earliest [] ≡ some e)
unfolding earliest
empty_root e h = cc

earliest_cons :
    (k : String) (e f : GroupEntry) (m : Map GroupEntry)
    → earliest m ≡ some f
    → earliest ((k, e) ∷ m) ≡ some (if less f e then f else e)
unfolding earliest
earliest_cons k e f m h = rw h

earliest_last :
    (k : String) (e : GroupEntry) (m : Map GroupEntry)
    → earliest m ≡ none
    → earliest ((k, e) ∷ m) ≡ some e
unfolding earliest
earliest_last k e m h = rw h

pub earliest-none : (m : Map GroupEntry) → earliest m ≡ none → m ≡ []
earliest-none [] h = refl
earliest-none ((k, e) ∷ m) h = elim (Option-cases (earliest m)) [
  | inl n ↦ absurd (grind (arith, earliest_last k e m n))
  | inr (f, t) ↦ absurd (grind (arith, earliest_cons k e f m t))
]

less_le : (f e : GroupEntry) → less f e ≡ true → f.next_run_at ≤ e.next_run_at
unfolding less
less_le f e h = ground arith

not_less_le : (f e : GroupEntry) → less f e ≡ false → e.next_run_at ≤ f.next_run_at
unfolding less
not_less_le f e h = ground arith

-- The entry chosen from a map that has one more entry.
earliest_choice :
    (k : String) (w e : GroupEntry) (m : Map GroupEntry)
    → earliest ((k, w) ∷ m) ≡ some e
    → ((w ≡ e) × (m ≡ []))
      ⊎ ((f : GroupEntry) × (earliest m ≡ some f)
          × (((f ≡ e) × (less f w ≡ true)) ⊎ ((w ≡ e) × (less f w ≡ false))))
earliest_choice k w e m h = elim (Option-cases (earliest m)) [
  | inl n ↦ inl (some-injective _ _ (sym (earliest_last k w m n) ∙ h), earliest-none m n)
  | inr (f, t) ↦
      let chosen = sym (earliest_cons k w f m t) ∙ h in
      inr (
        f,
        t,
        elim (Bool-cases (less f w)) [
          | inl b ↦ inl (some-injective _ _ (rw b at chosen), b)
          | inr b ↦ inr (some-injective _ _ (rw b at chosen), b)
        ],
      )
]

least_of :
    (m : Map GroupEntry) (t u : Time)
    → t ≤ u
    → All (λ kv. u ≤ kv.1.next_run_at) m
    → All (λ kv. t ≤ kv.1.next_run_at) m
least_of [] t u h a = tt
least_of ((k, w) ∷ m) t u h a = (omega (arith, a.0), least_of m t u h a.1)

pub earliest_least :
    (m : Map GroupEntry) (e : GroupEntry)
    → earliest m ≡ some e
    → All (λ kv. e.next_run_at ≤ kv.1.next_run_at) m
earliest_least [] e h = tt
earliest_least ((k, w) ∷ m) e h = elim (earliest_choice k w e m h) [
  | inl (same, empty) ↦
      subst (λ x. All (λ kv. x.next_run_at ≤ kv.1.next_run_at) ((k, w) ∷ m)) same
        (omega arith, subst (λ l. All (λ kv. w.next_run_at ≤ kv.1.next_run_at) l) (sym empty) tt)
  | inr (f, t, inl (same, b)) ↦
      subst (λ x. All (λ kv. x.next_run_at ≤ kv.1.next_run_at) ((k, w) ∷ m)) same
        (less_le f w b, earliest_least m f t)
  | inr (f, t, inr (same, b)) ↦
      subst (λ x. All (λ kv. x.next_run_at ≤ kv.1.next_run_at) ((k, w) ∷ m)) same
        (
          omega arith,
          least_of m w.next_run_at f.next_run_at (not_less_le f w b) (earliest_least m f t),
        )
]

lookup_here :
    (k : String) (w : GroupEntry) (m : Map GroupEntry)
    → w.group.id ≡ k
    → lookup w.group.id ((k, w) ∷ m) ≡ some w
unfolding lookup
lookup_here k w m h = if_pos (text_dec k w.group.id) (sym h) _ _

lookup_there :
    (k j : String) (w : GroupEntry) (m : Map GroupEntry) (f : GroupEntry)
    → lookup k m ≡ none
    → lookup j m ≡ some f
    → lookup j ((k, w) ∷ m) ≡ some f
unfolding lookup
lookup_there k j w m f absent found = ground (arith, ap (λ i. lookup i m))

pub earliest-lookup :
    (m : Map GroupEntry) (e : GroupEntry)
    → IsKeyed m
    → earliest m ≡ some e
    → lookup e.group.id m ≡ some e
earliest-lookup [] e d h = absurd (empty_root e h)
earliest-lookup ((k, w) ∷ m) e d h = elim (earliest_choice k w e m h) [
  | inl (same, empty) ↦
      subst (λ x. lookup x.group.id ((k, w) ∷ m) ≡ some x) same (lookup_here k w m d.1.0)
  | inr (f, t, inl (same, b)) ↦
      subst (λ x. lookup x.group.id ((k, w) ∷ m) ≡ some x) same
        (lookup_there k f.group.id w m f d.0.0 (earliest-lookup m f (d.0.1, d.1.1) t))
  | inr (f, t, inr (same, b)) ↦
      subst (λ x. lookup x.group.id ((k, w) ∷ m) ≡ some x) same (lookup_here k w m d.1.0)
]
