-- ===== src/Prelude/Entries.antt =====
-- Maps again: a property or a measure of every entry.
use Prim.Native.Nat.{ℕ, ◌+◌}
use Prim.Native.String.{String}
use mathlib.Core.Path.{◌≡◌, subst, ap, ◌∙◌}
use mathlib.Core.Logic.{ite}
use mathlib.Core.List.{[], ◌∷◌}
use mathlib.Core.Option.{some}
use native.Mathlib.Omega.{arith}
use zabbix_exporter.Prelude.Lists.{All, total}
use zabbix_exporter.Prelude.Maps.{Map, lookup, put}
use zabbix_exporter.Prelude.Text.{text_dec}

module _ {ℓ} {V : Type ℓ} where
  pub All-lookup {κ} :
      (P : String × V → Type κ) (k : String) (v : V) (m : Map V)
      → All P m
      → lookup k m ≡ some v
      → P (k, v)
  unfolding lookup
  All-lookup P k v [] h e = absurd cc
  All-lookup P k v ((j, w) ∷ m) h e = elim (text_dec j k) [
    | yes same ↦
        let found : w ≡ v = ground arith in
        subst P (ap (λ i. (i, w)) same ∙ ap (λ u. (k, u)) found) h.0
    | no other ↦ All-lookup P k v m h.1 (ground arith)
  ]

  pub All-put {κ} :
      (P : String × V → Type κ) (k : String) (v : V) (m : Map V)
      → All P m
      → P (k, v)
      → All P (put k v m)
  unfolding put
  All-put P k v [] h p = (p, tt)
  All-put P k v ((j, w) ∷ m) h p =
      elim (text_dec j k) as (λ d. All P (ite d ((k, v) ∷ m) ((j, w) ∷ put k v m))) [
        | yes same ↦ (p, h.1)
        | no other ↦ (h.0, All-put P k v m h.1 p)
      ]

  -- Replacing an entry changes the sum by the entry's measure.
  pub total-put_old :
      (f : String × V → ℕ) (k : String) (v w : V) (m : Map V)
      → lookup k m ≡ some w
      → total f (put k v m) + f (k, w) ≡ total f m + f (k, v)
  unfolding lookup put
  total-put_old f k v w [] h = absurd cc
  total-put_old f k v w ((j, u) ∷ m) h = elim (text_dec j k) [
    | yes same ↦
        let found : u ≡ w = ground arith in
        let here : f (j, u) ≡ f (k, w) = ap (λ i. f (i, u)) same ∙ ap (λ x. f (k, x)) found in
        ground (arith, here)
    | no other ↦ ground (arith, total-put_old f k v w m)
  ]

  pub put-put : (k : String) (v w : V) (m : Map V) → put k v (put k w m) ≡ put k v m
  unfolding put
  put-put k v w [] = ground arith
  put-put k v w ((j, u) ∷ m) = ground (arith, put-put k v w m)
