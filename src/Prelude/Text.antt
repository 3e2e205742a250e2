-- ===== src/Prelude/Text.antt =====
-- `str` operations over the characters of a text.
use Prim.Native.Char.{Char, code}
use Prim.Native.String.{String, ◌++◌}
use Prim.Native.String.append
use mathlib.Core.Path.{◌≡◌, refl}
use mathlib.Core.Bool.{Bool, true, false, ◌&&◌, ◌||◌}
use mathlib.Core.List.{List, [], ◌∷◌}
use mathlib.Core.Option.{Option, none, some}
use native.Mathlib.Omega.{arith}
use thor_firewall_smart.Prelude.Tests.{if◌then◌else◌}
use thor_firewall_smart.Prelude.Equality.{◌==◌, nat_eq, string_eq}

-- `strip_prefix`
unfoldable pub strip_prefix : String → String → Option String
strip_prefix s String.[] = some s
strip_prefix String.[] (String.◌∷◌ c p) = none
strip_prefix (String.◌∷◌ d s) (String.◌∷◌ c p) = if code d == code c then strip_prefix s p else none

unfoldable pub starts_with : String → String → Bool
starts_with s String.[] = true
starts_with String.[] (String.◌∷◌ c p) = false
starts_with (String.◌∷◌ d s) (String.◌∷◌ c p) = code d == code c && starts_with s p

-- `trim_end_matches`, of one character.
unfoldable pub trim_end : Char → String → String
trim_end x String.[] = ""
trim_end x (String.◌∷◌ c s) =
    let rest = trim_end x s in if rest == "" && code c == code x then "" else String.◌∷◌ c rest

unfoldable pub has_char : Char → String → Bool
has_char x String.[] = false
has_char x (String.◌∷◌ c s) = code c == code x || has_char x s

-- `contains` of a text.
unfoldable pub contains_str : String → String → Bool
contains_str p String.[] = starts_with "" p
contains_str p (String.◌∷◌ c s) = starts_with (String.◌∷◌ c s) p || contains_str p s

-- `join` of a slice of texts.
unfoldable pub join : String → List String → String
join sep [] = ""
join sep (x ∷ []) = x
join sep (x ∷ y ∷ ys) = x ++ (sep ++ join sep (y ∷ ys))

pub starts_with-append : (p s : String) → starts_with (p ++ s) p ≡ true
unfolding starts_with
starts_with-append String.[] s = refl
starts_with-append (String.◌∷◌ c p) s = rw append.cons (ground (arith, starts_with-append p s))

-- A character of a prefix is one of the text.
pub starts_with-has_char :
    (x : Char) (s p : String) → starts_with s p ≡ true → has_char x p ≡ true → has_char x s ≡ true
unfolding starts_with has_char
starts_with-has_char x s String.[] h k = ground arith
starts_with-has_char x String.[] (String.◌∷◌ c p) h k = ground arith
starts_with-has_char x (String.◌∷◌ d s) (String.◌∷◌ c p) h k =
    ground (arith, starts_with-has_char x s p)
