-- ===== src/Prelude/Sets.antt =====
-- Sets of texts, as Go's `map[string]struct{}`: a list in the order of the first insertion.
use Prim.Native.String.{String}
use mathlib.Core.Path.{◌≡◌, refl}
use mathlib.Core.Bool.{Bool, true, false}
use mathlib.Core.Logic.{ite}
use mathlib.Core.List.{List, [], ◌∷◌, ◌++◌}
use native.Mathlib.Omega.{arith}
use zabbix_exporter.Prelude.Tests.{if◌then◌else◌}
use zabbix_exporter.Prelude.Text.{text_dec}

unfoldable pub contains : String → List String → Bool
contains k [] = false
contains k (j ∷ s) = ite (text_dec j k) true (contains k s)

unfoldable pub include : String → List String → List String
include k s = if contains k s then s else s ++ k ∷ []

pub contains-append :
    (k j : String) (s : List String)
    → contains k (s ++ j ∷ []) ≡ ite (text_dec j k) true (contains k s)
unfolding contains
contains-append k j [] = refl
contains-append k j (i ∷ s) = ground (arith, contains-append k j s)

pub contains-include :
    (k j : String) (s : List String)
    → contains k (include j s) ≡ ite (text_dec j k) true (contains k s)
unfolding include
contains-include k j s = ground (arith, contains-append k j s)
