-- ===== src/Prelude/Int.antt =====
-- Signed integers, `negsuc n` being -(n + 1), and the range of an `i64`.
use Prim.Native.Nat.{ℕ, zero, suc, ◌+◌, ◌*◌, ◌-◌, ◌/◌, ◌%◌, ◌^◌}
use Prim.Native.Char.{code}
use Prim.Native.String.{String, char_at}
use mathlib.Core.Path.{◌≡◌}
use mathlib.Core.Logic.{◌↔◌}
use mathlib.Core.Bool.{Bool, true, false, not}
use mathlib.Core.Option.{Option, none, some}
use native.Mathlib.Omega.{arith}
use thor_firewall_smart.Prelude.Tests.{ltb, leb, if◌then◌else◌, nat_beq_iff}
use thor_firewall_smart.Prelude.Equality.{PartialEq, ◌==◌, nat_eq}

pub data ℤ : Type 0 where
  pos negsuc : ℕ → ℤ

abbrev pub same_int : ℤ → ℤ → Bool
same_int (pos m) (pos n) = m == n
same_int (negsuc m) (negsuc n) = m == n
same_int (pos m) (negsuc n) = false
same_int (negsuc m) (pos n) = false

pub same_int_iff : (a b : ℤ) → (same_int a b ≡ true) ↔ (a ≡ b)
same_int_iff (pos m) (pos n) = ground (arith, nat_beq_iff m n)
same_int_iff (negsuc m) (negsuc n) = ground (arith, nat_beq_iff m n)
same_int_iff (pos m) (negsuc n) = ground arith
same_int_iff (negsuc m) (pos n) = ground arith

instance abbrev pub int_eq : PartialEq ℤ
int_eq = record { same = same_int; same_iff = same_int_iff }

-- `<` and `<=`
abbrev pub ltz : ℤ → ℤ → Bool
ltz (pos m) (pos n) = ltb m n
ltz (negsuc m) (negsuc n) = ltb n m
ltz (pos m) (negsuc n) = false
ltz (negsuc m) (pos n) = true

abbrev pub lez : ℤ → ℤ → Bool
lez a b = not (ltz b a)

-- The digits of a text, as a number; `none` at any other character.
unfoldable pub digits_from : ℕ → String → Option ℕ
digits_from acc String.[] = some acc
digits_from acc (String.◌∷◌ c s) =
    let rest = digits_from (acc * 10 + (code c - b'0')) s in
    if ltb (code c) b'0' then none else if ltb b'9' (code c) then none else rest

abbrev pub parse_digits : String → Option ℕ
parse_digits String.[] = none
parse_digits s = digits_from 0 s

abbrev pub positive : ℕ → Option ℤ
positive n = if ltb n (2 ^ 63) then some (pos n) else none

abbrev pub negative : ℕ → Option ℤ
negative n = if n == 0 then some (pos 0) else if leb n (2 ^ 63) then some (negsuc (n - 1)) else none

-- `parse::<i64>`: a sign or none, and at least one digit, within the range.
unfoldable pub parse_i64 : String → Option ℤ
parse_i64 String.[] = none
parse_i64 (String.◌∷◌ c s) =
    if code c == b'-'
    then elim (parse_digits s) [ none ↦ none | some n ↦ negative n ]
    else if code c == b'+'
    then elim (parse_digits s) [ none ↦ none | some n ↦ positive n ]
    else elim (parse_digits (String.◌∷◌ c s)) [ none ↦ none | some n ↦ positive n ]

-- `to_string`: the decimal digits, the last one first in the recursion.
unfoldable pub show_from : ℕ → ℕ → String → String
show_from zero n after = after
show_from (suc f) n after =
    let text = String.◌∷◌ (char_at "0123456789" (n % 10)) after in
    let more = show_from f (n / 10) text in if ltb n 10 then text else more

unfoldable pub to_string : ℤ → String
unfolding show_from
to_string (pos n) = show_from (suc n) n ""
to_string (negsuc n) = String.◌∷◌ "-" (show_from (suc (suc n)) (suc n) "")
