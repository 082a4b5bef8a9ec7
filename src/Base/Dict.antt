-- ===== src/Base/Dict.antt =====
-- A Go map with string keys, as an association list whose keys differ. The order of the list stands
-- for the order, unspecified in Go, in which a `range` visits the entries.
use mathlib.Core.Path.{◌≡◌, refl}
use mathlib.Core.Option.{Option, none, some}
use mathlib.Core.List.{List, [], ◌∷◌, ◌++◌}
use Prim.Native.String.{String}
use native.Mathlib.Omega.{arith}
use text.Mathlib.Text.{◌==◌ as str_eq}
use text.Mathlib.TextEquality.{eq_iff}
use lambda_runtime_init.Base.Tests.{if◌then◌else◌}

-- `m[key]`, with `ok`.
unfoldable pub lookup {ℓ} : {V : Type ℓ} → String → List (String × V) → Option V
lookup key [] = none
lookup key ((found, x) ∷ others) = if str_eq found key then some x else lookup key others

-- `m[key] = x`.
unfoldable pub insert {ℓ} : {V : Type ℓ} → String → V → List (String × V) → List (String × V)
insert key x ((found, old) ∷ others) =
    if str_eq found key then (key, x) ∷ others else (found, old) ∷ insert key x others
insert key x [] = (key, x) ∷ []

abbrev pub values {ℓ} : {V : Type ℓ} → List (String × V) → List V
values [] = []
values ((found, x) ∷ others) = x ∷ values others

module _ {ℓ} {V : Type ℓ} where
  pub lookup-insert :
      (key asked : String) (x : V) (entries : List (String × V))
      → lookup asked (insert key x entries)
        ≡ (if str_eq key asked then some x else lookup asked entries)
  unfolding lookup insert
  lookup-insert key asked x ((found, old) ∷ others) =
      let rest = lookup-insert key asked x others in
      ground (arith, rest, eq_iff found asked, eq_iff found key, eq_iff key asked)
  lookup-insert key asked x [] = refl

  -- A key that is not there is put at the end.
  pub insert-new :
      (key : String) (x : V) (entries : List (String × V))
      → lookup key entries ≡ none
      → insert key x entries ≡ entries ++ (key, x) ∷ []
  unfolding lookup insert
  insert-new key x [] free = refl
  insert-new key x ((found, old) ∷ others) free = ground (arith, insert-new key x others)
