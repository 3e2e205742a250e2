-- ===== src/Ids/RuleOptions/ReadBack.antt =====
-- rule_parser.rs: `parse_options` reads back the options that have a text.
use Prim.Native.Char.{Char, code}
use Prim.Native.String.{String, ◌++◌}
use Prim.Native.String.append
use thor_firewall_smart.Prelude.{
  ℕ, zero, suc, ◌≡◌, ◌≤◌, ◌<◌, refl, Bool, true, false, Option, none, some, List, [], ◌∷◌, arith,
  ◌==◌, nat_eq, string_eq, All, length, ◌∙◌,
}
use thor_firewall_smart.Prelude.Scan.{
  trim_end_by, count-append, cons-nonempty, span, count, trim, trim_start_by,
}
use thor_firewall_smart.Ids.RuleOptions.{
  RuleOption, is_separator, in_keyword, read_option, options_loop, parse_options,
}
use thor_firewall_smart.Ids.RuleOptions.Values.{Balanced, read_value-closed}

abbrev pub AllChars : (ℕ → Bool) → String → Type 0
AllChars p String.[] = Unit
AllChars p (String.◌∷◌ c s) = (p (code c) ≡ true) × AllChars p s

-- A keyword: not empty, without a colon or a semicolon, and without white space at its ends.
abbrev pub IsKeyword : String → Type 0
IsKeyword String.[] = ⊥
IsKeyword (String.◌∷◌ c s) =
    (is_separator (code c) ≡ false)
    × AllChars in_keyword (String.◌∷◌ c s)
    × (trim (String.◌∷◌ c s) ≡ String.◌∷◌ c s)

abbrev pub IsValue : Option String → Type 0
IsValue none = Unit
IsValue (some v) = Balanced 0 v × (trim v ≡ v)

abbrev pub IsOption : RuleOption → Type 0
IsOption o = IsKeyword o.keyword × IsValue o.value

-- An option as it is written, and options in a row.
abbrev pub print_value : Option String → String → String
print_value none after = String.◌∷◌ ";" after
print_value (some v) after = String.◌∷◌ ":" (v ++ String.◌∷◌ ";" after)

unfoldable pub print : List RuleOption → String
print [] = ""
print (o ∷ os) = o.keyword ++ print_value o.value (print os)

trim-separator :
    (s : String) → trim_start_by is_separator (String.◌∷◌ ";" s) ≡ trim_start_by is_separator s
unfolding trim_start_by
trim-separator s = refl

-- In front of a keyword no separator is skipped.
trim-keyword :
    (word after : String)
    → IsKeyword word
    → trim_start_by is_separator (word ++ after) ≡ word ++ after
unfolding trim_start_by
trim-keyword String.[] after h = absurd h
trim-keyword (String.◌∷◌ c s) after h = rw append.cons (rw (trim_start_by, h.0) refl)

span-all :
    (p : ℕ → Bool) (s : String) (c : Char) (after : String)
    → AllChars p s
    → p (code c) ≡ false
    → span p (s ++ String.◌∷◌ c after) ≡ (s, String.◌∷◌ c after)
unfolding span
span-all p String.[] c after h k = rw append.nil (rw (span, k) refl)
span-all p (String.◌∷◌ d s) c after h k =
    rw append.cons (rw (span, h.0, span-all p s c after h.1 k) refl)

read_option-print :
    (word : String) (v : Option String) (after : String)
    → IsValue v
    → read_option word (print_value v after)
      ≡ (record { keyword = word; value = v }, String.◌∷◌ ";" after)
unfolding read_option
read_option-print word none after h = refl
read_option-print word (some v) after h = rw (read_value-closed v after h.0, h.1) refl

span-print :
    (word : String) (v : Option String) (after : String)
    → AllChars in_keyword word
    → span in_keyword (word ++ print_value v after) ≡ (word, print_value v after)
span-print word none after h = span-all in_keyword word ";" after h refl
span-print word (some v) after h = span-all in_keyword word ":" (v ++ String.◌∷◌ ";" after) h refl

keyword-AllChars : (word : String) → IsKeyword word → AllChars in_keyword word
keyword-AllChars String.[] h = absurd h
keyword-AllChars (String.◌∷◌ c s) h = h.1

trim-IsKeyword : (word : String) → IsKeyword word → trim word ≡ word
trim-IsKeyword String.[] h = absurd h
trim-IsKeyword (String.◌∷◌ c s) h = h.2

keyword-nonempty : (word : String) → IsKeyword word → (word == "") ≡ false
keyword-nonempty String.[] h = absurd h
keyword-nonempty (String.◌∷◌ c s) h = cons-nonempty c s

trim-print :
    (os : List RuleOption) → All IsOption os → trim_start_by is_separator (print os) ≡ print os
unfolding print trim_start_by
trim-print [] h = refl
trim-print (o ∷ os) h = trim-keyword o.keyword (print_value o.value (print os)) h.0.0

options_loop-print :
    (f : ℕ) (os : List RuleOption) (s : String)
    → All IsOption os
    → length os < f
    → trim_start_by is_separator s ≡ print os
    → options_loop f s ≡ some os
unfolding options_loop print trim_end_by trim_start_by span
options_loop-print zero os s h lt e = absurd (omega (arith, lt))
options_loop-print (suc f) [] s h lt e = rw (options_loop, e) refl
options_loop-print (suc f) (o ∷ os) s h lt e =
    let more =
      options_loop-print f os (String.◌∷◌ ";" (print os)) h.1 (omega (arith, lt))
        (trim-separator (print os) ∙ trim-print os h.1) in
    rw
      (
        options_loop,
        e,
        span-print o.keyword o.value (print os) (keyword-AllChars o.keyword h.0.0),
        trim-IsKeyword o.keyword h.0.0,
        read_option-print o.keyword o.value (print os) h.0.1,
        more,
        keyword-nonempty o.keyword h.0.0,
      )
      refl

count-print_value : (v : Option String) (after : String) → count after < count (print_value v after)
unfolding count
count-print_value none after = omega arith
count-print_value (some v) after = omega (arith, count-append v (String.◌∷◌ ";" after))

length-le-count-print : (os : List RuleOption) → All IsOption os → length os ≤ count (print os)
unfolding print count
length-le-count-print [] h = omega arith
length-le-count-print (o ∷ os) h = omega (
  arith,
  count-append o.keyword (print_value o.value (print os)),
  count-print_value o.value (print os),
  length-le-count-print os h.1,
)

-- Options whose keywords have no colon, semicolon or white space at the ends, and whose values have
-- their quotes closed and their parentheses matched, with semicolons only inside of these and no
-- white space at the ends, are read back as they were from the text that has them in a row.
pub parse_options-print :
    (os : List RuleOption) → All IsOption os → parse_options (print os) ≡ some os
unfolding parse_options
parse_options-print os h =
    options_loop-print (suc (count (print os))) os (print os) h
      (omega (arith, length-le-count-print os h)) (trim-print os h)
