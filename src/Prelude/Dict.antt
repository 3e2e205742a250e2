-- ===== src/Prelude/Dict.antt =====
-- `DashMap`, `HashMap` and `HashSet`: an association list with distinct keys. A set is a map into
-- the unit type.
pub mod Laws
use Prim.Native.Nat.{ℕ}
use mathlib.Core.Path.{◌≡◌}
use mathlib.Core.Bool.{Bool, true, false}
use mathlib.Core.Option.{Option, none, some, get_or}
use mathlib.Core.List.{List, [], ◌∷◌}
use thor_firewall_smart.Prelude.Tests.{if◌then◌else◌}
use thor_firewall_smart.Prelude.Equality.{PartialEq, ◌==◌}

abbrev pub Dict {ℓ κ} : Type ℓ → Type κ → Type (ℓ ⊔ κ)
Dict K V = List (K × V)

module _ {ℓ κ} {K : Type ℓ} {V : Type κ} ⦃q : PartialEq K⦄ where
  unfoldable pub insert : K → V → Dict K V → Dict K V
  insert at new ((i, old) ∷ m) = if i == at then (i, new) ∷ m else (i, old) ∷ insert at new m
  insert at new [] = (at, new) ∷ []

  unfoldable pub lookup : K → Dict K V → Option V
  lookup key ((i, v) ∷ m) = if i == key then some v else lookup key m
  lookup key [] = none

  unfoldable pub remove : K → Dict K V → Dict K V
  remove k [] = []
  remove k ((j, w) ∷ m) = if j == k then m else (j, w) ∷ remove k m

  -- `entry(k).or_insert(v)`, read back.
  abbrev pub lookup_or : K → V → Dict K V → V
  lookup_or k v m = get_or (lookup k m) v

  abbrev pub contains_key : K → Dict K V → Bool
  contains_key k m = elim (lookup k m) [ none ↦ false | some _ ↦ true ]

-- `retain`.
module _ {ℓ κ} {K : Type ℓ} {V : Type κ} where
  unfoldable pub retain : (K → V → Bool) → Dict K V → Dict K V
  retain p [] = []
  retain p ((j, w) ∷ m) = if p j w then (j, w) ∷ retain p m else retain p m
