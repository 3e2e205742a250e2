-- ===== src/Script/Context.antt =====
-- crates/thor-script/src/runtime.rs: the variables of a rule, and the texts they are put in.
-- `regex` and the decoding of the payload are parameters. A map is iterated in the order of its
-- entries.
use Prim.Native.String.{String, ◌++◌}
use thor_firewall_smart.Prelude.{
  ℕ, zero, suc, ◌-◌, Bool, Option, none, some, List, [], ◌∷◌, if◌then◌else◌, string_eq,
}
use thor_firewall_smart.Prelude.Dict.{Dict, insert, lookup}
use thor_firewall_smart.Prelude.Text.{starts_with}
use thor_firewall_smart.Prelude.Int.{ℤ, int_eq, parse_i64, to_string}
use thor_firewall_smart.Script.Lexer.{count}

pub record ExecutionContext : Type 0 where
  pub str_vars : Dict String String
  pub int_vars : Dict String ℤ
  pub bool_vars : Dict String Bool
  pub payload : List ℕ
  pub event_type : String

abbrev pub new_context : ExecutionContext
new_context = record { str_vars = []; int_vars = []; bool_vars = []; payload = []; event_type = "" }

unfoldable pub set_str : String → String → ExecutionContext → ExecutionContext
set_str k v ctx = record ctx { str_vars = insert k v ctx.str_vars }

unfoldable pub set_i64 : String → ℤ → ExecutionContext → ExecutionContext
set_i64 k v ctx = record ctx { int_vars = insert k v ctx.int_vars }

unfoldable pub set_bool : String → Bool → ExecutionContext → ExecutionContext
set_bool k v ctx = record ctx { bool_vars = insert k v ctx.bool_vars }

unfoldable pub set_payload : List ℕ → ExecutionContext → ExecutionContext
set_payload bytes ctx = record ctx { payload = bytes }

unfoldable pub set_event_type : String → ExecutionContext → ExecutionContext
set_event_type t ctx = record ctx { event_type = t }

unfoldable pub get_str : String → ExecutionContext → Option String
get_str k ctx = lookup k ctx.str_vars

-- A variable that is no integer is read from its text.
unfoldable pub get_i64 : String → ExecutionContext → Option ℤ
get_i64 k ctx = elim (lookup k ctx.int_vars) [
  | some v ↦ some v
  | none ↦ elim (lookup k ctx.str_vars) [ none ↦ none | some s ↦ parse_i64 s ]
]

unfoldable pub get_bool : String → ExecutionContext → Option Bool
get_bool k ctx = lookup k ctx.bool_vars

pub record ScriptResult : Type 0 where
  pub rule_name : String
  pub severity : String
  pub msg : String
  pub drop : Bool
  pub logs : List String

abbrev pub unwrap_or_empty : Option String → String
unwrap_or_empty none = ""
unwrap_or_empty (some s) = s

-- `replace`, of a pattern that is not empty: so many characters of a match are still to be passed.
unfoldable pub replace_from : (pattern_text with_text : String) → ℕ → String → String
replace_from p w skip String.[] = ""
replace_from p w (suc k) (String.◌∷◌ c s) = replace_from p w k s
replace_from p w zero (String.◌∷◌ c s) =
    let hit = starts_with (String.◌∷◌ c s) p in
    let rest = replace_from p w (if hit then count p - 1 else 0) s in
    if hit then w ++ rest else String.◌∷◌ c rest

abbrev pub placeholder : String → String
placeholder k = "${" ++ (k ++ "}")

unfoldable pub replace_strs : Dict String String → String → String
replace_strs [] text = text
replace_strs ((k, v) ∷ vars) text = replace_strs vars (replace_from (placeholder k) v 0 text)

unfoldable pub replace_ints : Dict String ℤ → String → String
replace_ints [] text = text
replace_ints ((k, v) ∷ vars) text =
    replace_ints vars (replace_from (placeholder k) (to_string v) 0 text)

unfoldable pub expand_string : String → ExecutionContext → String
expand_string template ctx = replace_ints ctx.int_vars (replace_strs ctx.str_vars template)
