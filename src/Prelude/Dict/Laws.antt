-- ===== src/Prelude/Dict/Laws.antt =====
-- The laws of the map operations. Those of `remove` and `retain` need the keys to be distinct.
use Prim.Native.Nat.{suc, ◌≤◌}
use mathlib.Core.Path.{◌≡◌, refl}
use mathlib.Core.Bool.{Bool}
use mathlib.Core.Option.{none, some}
use mathlib.Core.List.{[], ◌∷◌}
use native.Mathlib.Omega.{arith}
use thor_firewall_smart.Prelude.Tests.{if◌then◌else◌}
use thor_firewall_smart.Prelude.Lists.{length}
use thor_firewall_smart.Prelude.Equality.{PartialEq, ◌==◌}
use thor_firewall_smart.Prelude.Dict.{Dict, lookup, insert, remove, retain, contains_key}

module _ {ℓ κ} {K : Type ℓ} {V : Type κ} ⦃e : PartialEq K⦄ where
  -- Other keys are looked up as before.
  pub lookup-insert :
      (at key : K) (new : V) (m : Dict K V)
      → lookup key (insert at new m) ≡ (if at == key then some new else lookup key m)
  unfolding insert lookup
  lookup-insert at key new ((i, old) ∷ m) =
      let ih = lookup-insert at key new m in
      ground (arith, ih, e.same_iff i at, e.same_iff i key, e.same_iff at key)
  lookup-insert at key new [] = refl

  pub lookup-insert_self : (k : K) (v : V) (m : Dict K V) → lookup k (insert k v m) ≡ some v
  lookup-insert_self k v m = ground (arith, lookup-insert k k v m, e.same_iff k k)

  -- No key occurs twice.
  abbrev pub IsDistinct : Dict K V → Type κ
  IsDistinct [] = Unit
  IsDistinct ((j, w) ∷ m) = (lookup j m ≡ none) × IsDistinct m

  pub insert-IsDistinct : (k : K) (v : V) (m : Dict K V) → IsDistinct m → IsDistinct (insert k v m)
  unfolding lookup insert
  insert-IsDistinct k v [] d = (refl, tt)
  insert-IsDistinct k v ((i, w) ∷ m) d =
      ground
        (arith, insert-IsDistinct k v m d.1, lookup-insert k i v m, e.same_iff i k, e.same_iff k i)

  pub lookup-remove :
      (k j : K) (m : Dict K V)
      → IsDistinct m
      → lookup j (remove k m) ≡ (if k == j then none else lookup j m)
  unfolding lookup remove
  lookup-remove k j [] d = ground arith
  lookup-remove k j ((i, w) ∷ m) d =
      ground (arith, e.same_iff k j, e.same_iff i k, e.same_iff i j, lookup-remove k j m d.1)

  pub remove-IsDistinct : (k : K) (m : Dict K V) → IsDistinct m → IsDistinct (remove k m)
  unfolding lookup remove
  remove-IsDistinct k [] d = tt
  remove-IsDistinct k ((i, w) ∷ m) d =
      ground
        (arith, remove-IsDistinct k m d.1, lookup-remove k i m d.1, e.same_iff i k, e.same_iff k i)

  pub lookup-retain-none :
      (p : K → V → Bool) (j : K) (m : Dict K V) → lookup j m ≡ none → lookup j (retain p m) ≡ none
  unfolding lookup retain
  lookup-retain-none p j [] h = refl
  lookup-retain-none p j ((i, w) ∷ m) h = ground (arith, lookup-retain-none p j m)

  pub retain-IsDistinct : (p : K → V → Bool) (m : Dict K V) → IsDistinct m → IsDistinct (retain p m)
  unfolding lookup retain
  retain-IsDistinct p [] d = tt
  retain-IsDistinct p ((i, w) ∷ m) d =
      ground (arith, retain-IsDistinct p m d.1, lookup-retain-none p i m d.0)

  -- What is kept, and what is not.
  pub lookup-retain :
      (p : K → V → Bool) (j : K) (m : Dict K V)
      → IsDistinct m
      → lookup j (retain p m)
        ≡ elim (lookup j m) [ none ↦ none | some v ↦ if p j v then some v else none ]
  unfolding lookup retain
  lookup-retain p j [] d = refl
  lookup-retain p j ((i, w) ∷ m) d =
      ground (arith, e.same_iff i j, lookup-retain p j m d.1, lookup-retain-none p j m)

  -- A new key adds an entry; an old one does not.
  pub length-insert :
      (k : K) (v : V) (m : Dict K V)
      → length (insert k v m) ≡ (if contains_key k m then length m else suc (length m))
  unfolding lookup insert
  length-insert k v [] = refl
  length-insert k v ((i, w) ∷ m) = ground (arith, length-insert k v m)

module _ {ℓ κ} {K : Type ℓ} {V : Type κ} where
  pub length-retain : (p : K → V → Bool) (m : Dict K V) → length (retain p m) ≤ length m
  unfolding retain
  length-retain p [] = omega arith
  length-retain p ((i, w) ∷ m) = ground (arith, length-retain p m)
