-- ===== src/Push/Publisher/Cycles.antt =====
-- internal/promwrap/publisher.go: the order of the cycles of a slot.
use zabbix_exporter.Prelude.{
  ℕ, zero, suc, ◌+◌, ◌≤◌, ◌<◌, ◌≡◌, ◌≢◌, ◌⊎◌, refl, inl, inr, not, ◌&&◌, List, [], ◌∷◌, leb, ◌==◌,
  if◌then◌else◌, length, get_or, arith, Bool-cases,
}
use zabbix_exporter.Time.{Time, millisecond}
use zabbix_exporter.Push.Publisher.{Publisher, normalize_cycle, set_time, truncated}

get_or-set_time :
    (i : ℕ) (t : Time) (ts : List Time) → i < length ts → get_or (set_time i t ts) i 0 ≡ t
unfolding set_time
get_or-set_time i t [] h = absurd (omega arith)
get_or-set_time zero t (u ∷ ts) h = refl
get_or-set_time (suc i) t (u ∷ ts) h = get_or-set_time i t ts (omega arith)

next_cycle_rises :
    (last at : Time)
    → (last ≤ (if not (last == 0) && leb at last then last + millisecond else at))
      × ((last < (if not (last == 0) && leb at last then last + millisecond else at)) ⊎ (last ≡ 0))
next_cycle_rises last at = (ground arith, ground arith)

-- For a slot of the publisher, the cycle of a request is not before the slot's last one, and is
-- remembered as the last. If the request differs from the one before, in milliseconds, the cycle is
-- after the last, unless there was none.
pub normalize_cycle_rises :
    (slot : ℕ) (requested : Time) (p : Publisher)
    → slot < length p.last_cycle
    → (get_or p.last_cycle slot 0 ≤ (normalize_cycle slot requested p).0)
      × ((get_or (normalize_cycle slot requested p).1.last_cycle slot 0
            ≡ (normalize_cycle slot requested p).0)
          × (get_or p.last_requested slot 0 ≢ truncated requested
              → (get_or p.last_cycle slot 0 < (normalize_cycle slot requested p).0)
                ⊎ (get_or p.last_cycle slot 0 ≡ 0)))
unfolding normalize_cycle
normalize_cycle_rises slot requested p lt =
    let rises = next_cycle_rises (get_or p.last_cycle slot 0) (truncated requested) in
    elim (Bool-cases (get_or p.last_requested slot 0 == truncated requested)) [
      | inl t ↦
          rw (t, normalize_cycle) (omega arith, (refl, λ differs. absurd (differs (ground arith))))
      | inr f ↦
          rw (f, normalize_cycle)
            (rises.0, (get_or-set_time slot _ p.last_cycle lt, λ differs. rises.1))
    ]
