-- ===== src/Prelude/Scan.antt =====
-- Texts read from the front: what passes a test, the next character, and what white space is.
use Prim.Native.Char.{Char, code}
use Prim.Native.String.{String, ◌++◌}
use Prim.Native.String.append
use Prim.Native.Nat.{ℕ, suc, ◌+◌, ◌≤◌}
use mathlib.Core.Path.{◌≡◌, ap}
use text.Mathlib.TextEquality.{eq_iff}
use mathlib.Core.Logic.{inl, inr}
use mathlib.Core.Bool.{Bool, false, ◌&&◌, ◌||◌}
use native.Mathlib.Omega.{arith}
use thor_firewall_smart.Prelude.Tests.{Bool-cases, leb, if◌then◌else◌}
use thor_firewall_smart.Prelude.Equality.{◌==◌, nat_eq, string_eq}

-- The characters from the front that pass a test, and the rest.
unfoldable pub span : (ℕ → Bool) → String → String × String
span p String.[] = ("", "")
span p (String.◌∷◌ c s) =
    let (taken, rest) = span p s in
    if p (code c) then (String.◌∷◌ c taken, rest) else ("", String.◌∷◌ c s)

abbrev pub push_front : Char → String × String → String × String
push_front c (text, rest) = (String.◌∷◌ c text, rest)

-- `peek` at what follows a first character.
abbrev pub next_is : ℕ → String → Bool
next_is x String.[] = false
next_is x (String.◌∷◌ c s) = code c == x

abbrev pub rest_of : String → String
rest_of String.[] = ""
rest_of (String.◌∷◌ c s) = s

-- The number of characters.
unfoldable pub count : String → ℕ
count String.[] = 0
count (String.◌∷◌ c s) = suc (count s)

-- `char::is_whitespace`
abbrev pub is_whitespace : ℕ → Bool
is_whitespace c =
    leb 9 c && leb c 13
    || c == 32
    || c == 133
    || c == 160
    || c == 5760
    || leb 8192 c && leb c 8202
    || c == 8232
    || c == 8233
    || c == 8239
    || c == 8287
    || c == 12288

-- `trim_start_matches` and `trim_end_matches`, of the characters that pass a test.
unfoldable pub trim_start_by : (ℕ → Bool) → String → String
trim_start_by p String.[] = ""
trim_start_by p (String.◌∷◌ c s) =
    let rest = trim_start_by p s in if p (code c) then rest else String.◌∷◌ c s

unfoldable pub trim_end_by : (ℕ → Bool) → String → String
trim_end_by p String.[] = ""
trim_end_by p (String.◌∷◌ c s) =
    let rest = trim_end_by p s in if rest == "" && p (code c) then "" else String.◌∷◌ c rest

abbrev pub trim_by : (ℕ → Bool) → String → String
trim_by p s = trim_end_by p (trim_start_by p s)

-- `trim`
abbrev pub trim : String → String
trim s = trim_by is_whitespace s

pub count-span : (p : ℕ → Bool) (s : String) → count (span p s).1 ≤ count s
unfolding span count
count-span p String.[] = omega arith
count-span p (String.◌∷◌ c s) = ground (arith, count-span p s)

pub count-rest_of : (s : String) → count (rest_of s) ≤ count s
unfolding count
count-rest_of String.[] = omega arith
count-rest_of (String.◌∷◌ c s) = omega arith

pub cons-nonempty : (c : Char) (s : String) → (String.◌∷◌ c s == "") ≡ false
unfolding count
cons-nonempty c s = elim (Bool-cases (String.◌∷◌ c s == "")) [
  | inl e ↦ absurd (omega (arith, ap count ((eq_iff (String.◌∷◌ c s) "").0 e)))
  | inr e ↦ e
]

pub count-append : (s t : String) → count (s ++ t) ≡ count s + count t
unfolding count
count-append String.[] t = rw append.nil (omega arith)
count-append (String.◌∷◌ c s) t = rw append.cons (omega (arith, count-append s t))
