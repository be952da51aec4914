-- ===== src/Base/Dict.antt =====
-- Go's `map[string]V` as an association list. The order in which Go walks a map is not fixed; the
-- program only copies entries from one map to another, where it does not matter.
use Prim.Native.String.{String}
use mathlib.Core.Path.{◌≡◌, refl}
use mathlib.Core.Option.{Option, none, some}
use mathlib.Core.List.{List, [], ◌∷◌}
use native.Mathlib.Omega.{arith}
use text.Mathlib.Text.{◌==◌}
use text.Mathlib.TextEquality.{eq_iff}
use yatai_deployment.Base.Tests.{if◌then◌else◌}

abbrev pub Dict : Type 0 → Type 0
Dict V = List (String × V)

module _ {V : Type 0} where
  unfoldable pub lookup : String → Dict V → Option V
  lookup k [] = none
  lookup k ((j, v) ∷ d) = if j == k then some v else lookup k d

  -- `d[k] = v`
  unfoldable pub insert : String → V → Dict V → Dict V
  insert k v [] = (k, v) ∷ []
  insert k v ((j, w) ∷ d) = if j == k then (k, v) ∷ d else (j, w) ∷ insert k v d

  -- `delete(d, k)`
  unfoldable pub erase : String → Dict V → Dict V
  erase k [] = []
  erase k ((j, w) ∷ d) = if j == k then erase k d else (j, w) ∷ erase k d

  -- `for k, v := range extra { d[k] = v }`
  unfoldable pub merge : Dict V → Dict V → Dict V
  merge [] d = d
  merge ((k, v) ∷ extra) d = merge extra (insert k v d)

  pub lookup-insert :
      (k j : String) (v : V) (d : Dict V)
      → lookup j (insert k v d) ≡ (if k == j then some v else lookup j d)
  unfolding lookup insert
  lookup-insert k j v [] = refl
  lookup-insert k j v ((i, w) ∷ d) =
      ground (arith, eq_iff k j, eq_iff i k, eq_iff i j, lookup-insert k j v d)

  -- Writing what is there changes nothing.
  pub lookup-insert_same :
      (k j : String) (v : V) (d : Dict V)
      → lookup k d ≡ some v
      → lookup j (insert k v d) ≡ lookup j d
  lookup-insert_same k j v d h = ground (arith, lookup-insert k j v d, eq_iff k j)

  pub lookup-erase :
      (k j : String) (d : Dict V) → lookup j (erase k d) ≡ (if k == j then none else lookup j d)
  unfolding lookup erase
  lookup-erase k j [] = ground arith
  lookup-erase k j ((i, w) ∷ d) =
      ground (arith, eq_iff k j, eq_iff i k, eq_iff i j, lookup-erase k j d)

  -- A key that the extra entries do not have keeps its value.
  pub lookup-merge_absent :
      (j : String) (extra d : Dict V)
      → lookup j extra ≡ none
      → lookup j (merge extra d) ≡ lookup j d
  unfolding lookup merge
  lookup-merge_absent j [] d h = refl
  lookup-merge_absent j ((k, v) ∷ extra) d h =
      ground (arith, lookup-merge_absent j extra (insert k v d), lookup-insert k j v d)

-- A map that may be nil, read as Go reads it: a missing key gives the empty text.
unfoldable pub read : Option (Dict String) → String → String
read none k = ""
read (some d) k = elim (lookup k d) [ none ↦ "" | some v ↦ v ]

-- `range` over a map that may be nil.
abbrev pub entries : Option (Dict String) → Dict String
entries none = []
entries (some d) = d
