-- ===== src/Ids/RuleOptions.antt =====
-- crates/thor-agent/src/ids/rule_parser.rs: `parse_options`. The loop takes fuel; `none` means that
-- it ran out. `depth` is at most the number of characters, which stays below 2 ^ 31.
pub mod Total
pub mod Values
pub mod ReadBack
mod Tests
use Prim.Native.Char.{code}
use Prim.Native.String.{String}
use thor_firewall_smart.Prelude.{
  ℕ, zero, suc, ◌-◌, Bool, true, false, not, ◌&&◌, ◌||◌, Option, none, some, List, [], ◌∷◌, ltb,
  ◌==◌, nat_eq, string_eq, if◌then◌else◌,
}
use thor_firewall_smart.Prelude.Scan.{
  span, push_front, next_is, rest_of, count, trim, trim_start_by,
}

pub record RuleOption : Type 0 where
  pub keyword : String
  pub value : Option String

abbrev pub is_separator : ℕ → Bool
is_separator c = c == b';' || c == 32 || c == 9

abbrev pub in_keyword : ℕ → Bool
in_keyword c = not (c == b':') && not (c == b';')

abbrev pub is_quote : ℕ → Bool
is_quote c = c == b'"' || c == b'\''

-- The depth of the parentheses, and the quote that is open.
abbrev pub Reading : Type 0
Reading = ℕ × Option ℕ

-- A character is added to the value, or ends it.
abbrev pub read_char : ℕ → Option ℕ → ℕ → Option Reading
read_char depth (some q) c = some (if c == q then (depth, none) else (depth, some q))
read_char depth none c =
    if is_quote c
    then some (depth, some c)
    else if c == b'('
    then some (suc depth, none)
    else if c == b')'
    then (if ltb 0 depth then some (depth - 1, none) else none)
    else if c == b';' && depth == 0
    then none
    else some (depth, none)

-- A value, and what follows it.
unfoldable pub read_value : ℕ → Option ℕ → String → String × String
read_value depth quote String.[] = ("", "")
read_value depth quote (String.◌∷◌ c s) = elim (read_char depth quote (code c)) [
  | none ↦ ("", String.◌∷◌ c s)
  | some r ↦ push_front c (read_value r.0 r.1 s)
]

-- An option of a keyword, from behind the keyword.
unfoldable pub read_option : String → String → RuleOption × String
read_option word after =
    let (text, rest) = read_value 0 none (rest_of after) in
    if next_is b':' after
    then (record { keyword = word; value = some (trim text) }, rest)
    else (record { keyword = word; value = none }, after)

abbrev pub add : RuleOption → Option (List RuleOption) → Option (List RuleOption)
add o none = none
add o (some os) = some (o ∷ os)

unfoldable pub options_loop : ℕ → String → Option (List RuleOption)
options_loop zero s = none
options_loop (suc f) s =
    let (raw, after) = span in_keyword (trim_start_by is_separator s) in
    let word = trim raw in
    let (o, rest) = read_option word after in
    let more = options_loop f rest in if word == "" then some [] else add o more

unfoldable pub parse_options : String → Option (List RuleOption)
parse_options s = options_loop (suc (count s)) s
