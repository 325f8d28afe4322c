-- ===== src/Base/Dict.antt =====
-- Maps from texts as association lists (`BTreeMap`, `HashMap`, a table by its text key). The first
-- entry of a key counts.
use Prim.Native.String.{String}
use mathlib.Core.Path.{◌≡◌, refl}
use mathlib.Core.List.{List, [], ◌∷◌}
use mathlib.Core.Option.{Option, none, some}
use text.Mathlib.TextEquality.{eq_iff}
use text.Mathlib.Text.{◌==◌}
use native.Mathlib.Omega.{arith}
use axelar_relayer.Base.Tests.{if◌then◌else◌}

module _ {ℓ} {Value : Type ℓ} where
  unfoldable pub lookup : String → List (String × Value) → Option Value
  lookup key [] = none
  lookup key ((name, value) ∷ rest) =
      let deeper = lookup key rest in if name == key then some value else deeper

  -- over the old entry, or at the end
  unfoldable pub insert : String → Value → List (String × Value) → List (String × Value)
  insert key new [] = (key, new) ∷ []
  insert key new ((name, value) ∷ rest) =
      let deeper = insert key new rest in
      if name == key then (key, new) ∷ rest else (name, value) ∷ deeper

  unfoldable pub remove : String → List (String × Value) → List (String × Value)
  remove key [] = []
  remove key ((name, value) ∷ rest) =
      let deeper = remove key rest in if name == key then deeper else (name, value) ∷ deeper

  pub lookup-insert :
      (key other : String) (new : Value) (rows : List (String × Value))
      → lookup other (insert key new rows) ≡ (if key == other then some new else lookup other rows)
  unfolding insert lookup
  lookup-insert key other new [] = refl
  lookup-insert key other new ((name, value) ∷ rows) =
      let tail = lookup-insert key other new rows in
      ground (arith, tail, eq_iff name other, eq_iff name key, eq_iff key other)

  pub lookup-remove :
      (key other : String) (rows : List (String × Value))
      → lookup other (remove key rows) ≡ (if key == other then none else lookup other rows)
  unfolding remove lookup
  lookup-remove key other [] = ground arith
  lookup-remove key other ((name, value) ∷ rows) =
      let tail = lookup-remove key other rows in
      ground (arith, tail, eq_iff name other, eq_iff name key, eq_iff key other)
