-- ===== src/Prelude/Maps.antt =====
-- Go maps keyed by a string, as association lists. `put` is `m[k] = v`, `erase` is `delete(m, k)`.
use Prim.Native.Nat.{◌+◌}
use Prim.Native.String.{String}
use mathlib.Core.Path.{◌≡◌, refl}
use mathlib.Core.Logic.{ite}
use mathlib.Core.List.{List, [], ◌∷◌}
use mathlib.Core.Option.{Option, none, some}
use native.Mathlib.Omega.{arith}
use zabbix_exporter.Prelude.Lists.{length}
use zabbix_exporter.Prelude.Text.{text_dec}

abbrev pub Map {ℓ} : Type ℓ → Type ℓ
Map V = List (String × V)

module _ {ℓ} {V : Type ℓ} where
  unfoldable pub lookup : String → Map V → Option V
  lookup k [] = none
  lookup k ((j, v) ∷ m) = ite (text_dec j k) (some v) (lookup k m)

  unfoldable pub put : String → V → Map V → Map V
  put k v [] = (k, v) ∷ []
  put k v ((j, w) ∷ m) = ite (text_dec j k) ((k, v) ∷ m) ((j, w) ∷ put k v m)

  unfoldable pub erase : String → Map V → Map V
  erase k [] = []
  erase k ((j, w) ∷ m) = ite (text_dec j k) (erase k m) ((j, w) ∷ erase k m)

  -- No key stands twice, as in every Go map.
  abbrev pub Distinct : Map V → Type ℓ
  Distinct [] = Unit
  Distinct ((k, v) ∷ m) = (lookup k m ≡ none) × Distinct m

module _ {ℓ} {V : Type ℓ} where
  pub lookup-put :
      (k j : String) (v : V) (m : Map V)
      → lookup j (put k v m) ≡ ite (text_dec k j) (some v) (lookup j m)
  unfolding lookup put
  lookup-put k j v [] = refl
  lookup-put k j v ((i, w) ∷ m) = ground (arith, lookup-put k j v m)

  pub lookup-erase :
      (k j : String) (m : Map V) → lookup j (erase k m) ≡ ite (text_dec k j) none (lookup j m)
  unfolding lookup erase
  lookup-erase k j [] = ground arith
  lookup-erase k j ((i, w) ∷ m) = ground (arith, lookup-erase k j m)

  pub put-Distinct : (k : String) (v : V) (m : Map V) → Distinct m → Distinct (put k v m)
  unfolding put lookup
  put-Distinct k v [] d = (refl, tt)
  put-Distinct k v ((j, w) ∷ m) d = ground (arith, put-Distinct k v m d.1, lookup-put k j v m)

  pub erase-Distinct : (k : String) (m : Map V) → Distinct m → Distinct (erase k m)
  unfolding erase
  erase-Distinct k [] d = d
  erase-Distinct k ((j, w) ∷ m) d = ground (arith, erase-Distinct k m d.1, lookup-erase k j m)

  -- Erasing a key that is not there changes nothing.
  pub erase_absent : (k : String) (m : Map V) → lookup k m ≡ none → erase k m ≡ m
  unfolding lookup erase
  erase_absent k [] h = refl
  erase_absent k ((j, w) ∷ m) h = ground (arith, erase_absent k m)

  pub length-put_new :
      (k : String) (v : V) (m : Map V) → lookup k m ≡ none → length (put k v m) ≡ length m + 1
  unfolding lookup put
  length-put_new k v [] h = omega arith
  length-put_new k v ((j, w) ∷ m) h = ground (arith, length-put_new k v m)

  pub length-put_old :
      (k : String) (v w : V) (m : Map V) → lookup k m ≡ some w → length (put k v m) ≡ length m
  unfolding lookup put
  length-put_old k v w [] h = cc
  length-put_old k v w ((j, u) ∷ m) h = ground (arith, length-put_old k v w m)

  pub length-erase :
      (k : String) (w : V) (m : Map V)
      → Distinct m
      → lookup k m ≡ some w
      → length (erase k m) + 1 ≡ length m
  unfolding lookup erase
  length-erase k w [] d h = cc
  length-erase k w ((j, u) ∷ m) d h = ground (arith, length-erase k w m d.1, erase_absent k m)
