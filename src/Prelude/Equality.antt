-- ===== src/Prelude/Equality.antt =====
-- `PartialEq` and `Eq`: a decidable equality as an instance argument.
use Prim.Native.Nat.{ℕ}
use Prim.Native.String.{String}
use mathlib.Core.Path.{◌≡◌, refl}
use mathlib.Core.Logic.{◌↔◌, ◌≢◌}
use mathlib.Core.Bool.{Bool, true, false, ◌||◌}
use mathlib.Core.List.{List, [], ◌∷◌}
use native.Mathlib.Omega.{arith}
use text.Mathlib.Text.{◌==◌ as text_same}
use text.Mathlib.TextEquality.{eq_iff}
use thor_firewall_smart.Prelude.Tests.{nat_beq, nat_beq_iff}

pub record PartialEq {ℓ} (K : Type ℓ) : Type ℓ where
  pub same : K → K → Bool
  pub same_iff : (x y : K) → (same x y ≡ true) ↔ (x ≡ y)

module _ {ℓ} {K : Type ℓ} ⦃q : PartialEq K⦄ where
  pub same_refl : (x : K) → q.same x x ≡ true
  same_refl x = (q.same_iff x x).1 refl

  pub same→eq : (x y : K) → q.same x y ≡ true → x ≡ y
  same→eq x y = (q.same_iff x y).0

  pub same→ne : (x y : K) → q.same x y ≡ false → x ≢ y
  same→ne x y h p = ground (arith, q.same_iff x y)

infix 50 ◌==◌
abbrev pub ◌==◌ {ℓ} : {K : Type ℓ} ⦃q : PartialEq K⦄ → K → K → Bool
◌==◌ ⦃q⦄ x y = q.same x y

-- `contains` of a vector, and `any(|x| x == y)`.
unfoldable pub contains {ℓ} : {K : Type ℓ} ⦃q : PartialEq K⦄ → List K → K → Bool
contains [] y = false
contains (x ∷ xs) y = y == x || contains xs y

instance abbrev pub string_eq : PartialEq String
string_eq = record { same_iff = eq_iff; same = text_same }

instance abbrev pub nat_eq : PartialEq ℕ
nat_eq = record { same_iff = nat_beq_iff; same = nat_beq }
