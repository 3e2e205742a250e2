-- ===== src/Prelude/Utf8.antt =====
-- `str::from_utf8`: the text that bytes encode, if they do.
use Prim.Native.Nat.{ℕ, ◌+◌, ◌*◌, ◌-◌, Ordering, compare}
use Prim.Native.Char.{Char, char, IsLt}
use Prim.Native.String.{String}
use mathlib.Core.Path.{◌≡◌, refl}
use mathlib.Core.Bool.{true, false, ◌&&◌}
use mathlib.Core.Option.{Option, none, some}
use mathlib.Core.List.{List, [], ◌∷◌}
use thor_firewall_smart.Prelude.Tests.{ltb, leb, if◌then◌else◌}
use thor_firewall_smart.Prelude.Equality.{◌==◌, nat_eq}

-- The built-in `IsScalar n` is three comparisons; these have the same clauses.
abbrev BothLt : Ordering → Ordering → Type 0
BothLt Ordering.lt o = IsLt o
BothLt Ordering.eq _ = ⊥
BothLt Ordering.gt _ = ⊥

abbrev Scalar : Ordering → Ordering → Ordering → Type 0
Scalar Ordering.lt _ _ = Unit
Scalar Ordering.eq o p = BothLt o p
Scalar Ordering.gt o p = BothLt o p

abbrev both_proof : (o p : Ordering) → Option (BothLt o p)
both_proof Ordering.lt Ordering.lt = some tt
both_proof Ordering.lt Ordering.eq = none
both_proof Ordering.lt Ordering.gt = none
both_proof Ordering.eq p = none
both_proof Ordering.gt p = none

abbrev scalar_proof : (o p q : Ordering) → Option (Scalar o p q)
scalar_proof Ordering.lt p q = some tt
scalar_proof Ordering.eq p q = both_proof p q
scalar_proof Ordering.gt p q = both_proof p q

-- The character of a number, where it is a Unicode scalar value.
abbrev pub from_u32 : ℕ → Option Char
from_u32 n = elim (scalar_proof (compare n 55296) (compare 57343 n) (compare n 1114112)) [
  | none ↦ none
  | some p ↦ some (char n p)
]

-- Between two characters, or within one: so many bytes are due, the value so far, and the least value
-- that needs so many bytes.
pub record Utf8 : Type 0 where
  pub due : ℕ
  pub value : ℕ
  pub least : ℕ

abbrev pub between : Utf8
between = record { due = 0; value = 0; least = 0 }

abbrev lead : ℕ → Option Utf8
lead b =
    if ltb b 192
    then none
    else if ltb b 224
    then some (record { due = 1; value = b - 192; least = 128 })
    else if ltb b 240
    then some (record { due = 2; value = b - 224; least = 2048 })
    else if ltb b 248
    then some (record { due = 3; value = b - 240; least = 65536 })
    else none

abbrev prefixed : Option Char → Option String → Option String
prefixed (some c) (some s) = some (String.◌∷◌ c s)
prefixed none o = none
prefixed (some c) none = none

abbrev continued : Utf8 → ℕ → Utf8
continued u b = record u { due = u.due - 1; value = u.value * 64 + (b - 128) }

unfoldable pub decode : Utf8 → List ℕ → Option String
decode u [] = if u.due == 0 then some "" else none
decode u (b ∷ bs) = elim (u.due == 0) [
  | true ↦ elim (ltb b 128) [
    | true ↦ prefixed (from_u32 b) (decode between bs)
    | false ↦ elim (lead b) [ none ↦ none | some v ↦ decode v bs ]
  ]
  | false ↦ elim (ltb 1 u.due) [
    | true ↦ let more = decode (continued u b) bs in if leb 128 b && ltb b 192 then more else none
    | false ↦
        let rest = decode between bs in
        if leb 128 b && ltb b 192 && leb u.least (continued u b).value
        then prefixed (from_u32 (continued u b).value) rest
        else none
  ]
]

abbrev pub from_utf8 : List ℕ → Option String
from_utf8 bytes = decode between bytes

from_utf8_accents :
    from_utf8 (b'a' ∷ 195 ∷ 169 ∷ 226 ∷ 130 ∷ 172 ∷ 240 ∷ 159 ∷ 152 ∷ 128 ∷ []) ≡ some "aé€😀"
unfolding decode
from_utf8_accents = refl

from_utf8_overlong : from_utf8 (192 ∷ 128 ∷ []) ≡ none
unfolding decode
from_utf8_overlong = refl

from_utf8_surrogate : from_utf8 (237 ∷ 160 ∷ 128 ∷ []) ≡ none
unfolding decode
from_utf8_surrogate = refl
