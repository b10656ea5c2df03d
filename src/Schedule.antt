-- ===== src/Schedule.antt =====
-- internal/scheduler/group.go: the batches of a group's items, and the period of its collection.
pub mod Cadence
pub mod State
pub mod Replace
pub mod Dispatch
pub mod Flight
use zabbix_exporter.Prelude.{
  ℕ, zero, suc, ◌%◌, ◌≤◌, ◌<◌, ◌≡◌, refl, ap, ◌∙◌, String, List, [], ◌∷◌, ◌++◌, Option, none, some,
  ℤ, pos, negsuc, leb, ◌==◌, if◌then◌else◌, length, length-take, length-drop, take, drop,
  take-append-drop, All, text_eq, arith,
}
use zabbix_exporter.Time.{Duration, minute}

abbrev pub default_batch_size : ℕ
default_batch_size = 50

-- `none` is the error for a negative size; 0 is the default size.
unfoldable pub new_group_builder : ℤ → Option ℕ
new_group_builder (negsuc n) = none
new_group_builder (pos n) = some (if n == 0 then default_batch_size else n)

-- The loop over `start`, cutting sorted ids into batches; the fuel is their number.
unfoldable pub batches_from : ℕ → ℕ → List String → List (List String)
batches_from zero size ids = []
batches_from (suc fuel) size [] = []
batches_from (suc fuel) size (id ∷ ids) =
    take size (id ∷ ids) ∷ batches_from fuel size (drop size (id ∷ ids))

unfoldable pub batches : ℕ → List String → List (List String)
unfolding batches_from
batches size ids = batches_from (length ids) size ids

-- The loop of compactStrings over the rest, after the last kept value.
unfoldable pub compact_after : String → List String → List String
compact_after last [] = []
compact_after last (value ∷ values) =
    if text_eq value last then compact_after last values else value ∷ compact_after value values

unfoldable pub compact_strings : List String → List String
unfolding compact_after
compact_strings [] = []
compact_strings (value ∷ values) = value ∷ compact_after value values

unfoldable pub collection_period : Duration → Duration
collection_period delay = if leb delay minute then minute else delay

-- `sum64` is the FNV-1a hash of the group's id.
unfoldable pub stable_offset : (String → ℕ) → String → Duration → Duration
stable_offset sum64 group_id window = if window == 0 then 0 else sum64 group_id % window

abbrev pub concat : List (List String) → List String
concat [] = []
concat (b ∷ bs) = b ++ concat bs

batches_from-concat :
    (fuel size : ℕ) (ids : List String)
    → 0 < size
    → length ids ≤ fuel
    → concat (batches_from fuel size ids) ≡ ids
unfolding batches_from
batches_from-concat zero size [] h le = refl
batches_from-concat zero size (id ∷ ids) h le = absurd (omega arith)
batches_from-concat (suc fuel) size [] h le = refl
batches_from-concat (suc fuel) size (id ∷ ids) h le =
    ap (λ xs. take size (id ∷ ids) ++ xs)
      (batches_from-concat fuel size (drop size (id ∷ ids)) h
        (omega (arith, length-drop size (id ∷ ids))))
    ∙ take-append-drop size (id ∷ ids)

batches_from-sizes :
    (fuel size : ℕ) (ids : List String)
    → 0 < size
    → All (λ b. (0 < length b) × (length b ≤ size)) (batches_from fuel size ids)
unfolding batches_from
batches_from-sizes zero size ids h = tt
batches_from-sizes (suc fuel) size [] h = tt
batches_from-sizes (suc fuel) size (id ∷ ids) h = (
  (omega (arith, length-take size (id ∷ ids)), omega (arith, length-take size (id ∷ ids))),
  batches_from-sizes fuel size (drop size (id ∷ ids)) h,
)

-- With a positive size, the batches in their order are the ids, none is empty, and none has more
-- than `size` ids.
pub batches-concat :
    (size : ℕ) (ids : List String)
    → 0 < size
    → (concat (batches size ids) ≡ ids)
      × All (λ b. (0 < length b) × (length b ≤ size)) (batches size ids)
unfolding batches
batches-concat size ids h = (
  batches_from-concat (length ids) size ids h (omega arith),
  batches_from-sizes (length ids) size ids h,
)
