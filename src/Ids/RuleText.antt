-- ===== src/Ids/RuleText.antt =====
-- crates/thor-agent/src/ids/rule_parser.rs: the operations of `str` that `parse_rule` uses. Texts are
-- measured in characters; the source's offsets are in bytes, at the same characters.
pub mod Finds
use Prim.Native.Char.{code}
use Prim.Native.String.{String}
use thor_firewall_smart.Prelude.{
  ℕ, zero, suc, ◌+◌, Bool, true, false, ◌&&◌, Option, none, some, List, [], ◌∷◌, ltb, leb, ◌==◌,
  nat_eq, string_eq, if◌then◌else◌, ◌^◌,
}
use thor_firewall_smart.Prelude.Int.{parse_digits}
use thor_firewall_smart.Prelude.Scan.{trim_by, is_whitespace}

-- `find` and `rfind` of one character
unfoldable pub find : ℕ → String → Option ℕ
find x String.[] = none
find x (String.◌∷◌ c s) =
    let later : Option ℕ = elim (find x s) [ none ↦ none | some n ↦ some (suc n) ] in
    if code c == x then some 0 else later

unfoldable pub rfind : ℕ → String → Option ℕ
rfind x String.[] = none
rfind x (String.◌∷◌ c s) = elim (rfind x s) [
  | none ↦ if code c == x then some 0 else none
  | some n ↦ some (suc n)
]

unfoldable pub take_chars : ℕ → String → String
take_chars zero s = ""
take_chars (suc n) String.[] = ""
take_chars (suc n) (String.◌∷◌ c s) = String.◌∷◌ c (take_chars n s)

unfoldable pub drop_chars : ℕ → String → String
drop_chars zero s = s
drop_chars (suc n) String.[] = ""
drop_chars (suc n) (String.◌∷◌ c s) = drop_chars n s

-- The word in front, if any, and those behind it.
abbrev pub push_word : String × List String → List String
push_word r = if r.0 == "" then r.1 else r.0 ∷ r.1

unfoldable pub words : String → String × List String
words String.[] = ("", [])
words (String.◌∷◌ c s) =
    let rest = words s in
    if is_whitespace (code c) then ("", push_word rest) else (String.◌∷◌ c rest.0, rest.1)

-- `split_whitespace().collect()`
abbrev pub split_whitespace : String → List String
split_whitespace s = push_word (words s)

-- `s.to_lowercase() == t`, where `t` has small letters of ASCII other than k, so that no other
-- character becomes one of its own.
unfoldable pub is_lowered : String → String → Bool
is_lowered String.[] t = t == ""
is_lowered (String.◌∷◌ c s) String.[] = false
is_lowered (String.◌∷◌ c s) (String.◌∷◌ d t) =
    let lowered = if leb b'A' (code c) && leb (code c) b'Z' then code c + 32 else code c in
    lowered == code d && is_lowered s t

-- `parse` of an unsigned number of so many bits: a `+` or none, and at least one digit.
abbrev pub bounded : ℕ → Option ℕ → Option ℕ
bounded bits none = none
bounded bits (some n) = if ltb n (2 ^ bits) then some n else none

unfoldable pub parse_unsigned : ℕ → String → Option ℕ
parse_unsigned bits String.[] = none
parse_unsigned bits (String.◌∷◌ c s) =
    if code c == b'+'
    then bounded bits (parse_digits s)
    else bounded bits (parse_digits (String.◌∷◌ c s))

abbrev pub trim_quotes : String → String
trim_quotes s = trim_by (λ c. c == b'"') s

-- `len` of a text: its bytes of UTF-8.
unfoldable pub byte_len : String → ℕ
byte_len String.[] = 0
byte_len (String.◌∷◌ c s) =
    (if ltb (code c) 128
      then 1
      else if ltb (code c) 2048
      then 2
      else if ltb (code c) 65536
      then 3
      else 4)
    + byte_len s
