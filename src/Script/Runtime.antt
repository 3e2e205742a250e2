-- ===== src/Script/Runtime.antt =====
-- crates/thor-script/src/runtime.rs: the rules of the scripts, run against a context. The crate
-- `regex` is a parameter. A map is iterated in the order of its
-- entries.
pub mod Cache
pub mod Reports
mod Tests
use Prim.Native.Char.{Char}
use Prim.Native.String.{String, ◌++◌}
use mathlib.Core.List.{◌++◌ as append}
use thor_firewall_smart.Script.Parser.Outcomes.{Outcome, ok}
use thor_firewall_smart.Script.Parser.{parse_script}
use thor_firewall_smart.Prelude.{
  ℕ, zero, suc, ◌-◌, ◌≡◌, Bool, true, false, not, ◌&&◌, ◌||◌, Option, none, some, List, [], ◌∷◌,
  length, map, if◌then◌else◌, ◌==◌, string_eq, ltb,
}
use thor_firewall_smart.Prelude.Utf8.{from_utf8}
use thor_firewall_smart.Prelude.Dict.{Dict, insert, lookup, contains_key}
use thor_firewall_smart.Prelude.Text.{starts_with, contains_str}
use thor_firewall_smart.Prelude.Int.{ℤ, int_eq, ltz, lez, parse_i64, to_string}
use thor_firewall_smart.Script.Lexer.{count}
use thor_firewall_smart.Script.Syntax.{
  EventType, network, dns, http, tls, process, file, any, Operator, eq, ne, lt, gt, le, ge, in_list,
  not_in, match_regex, contains_text, Value, str, int, list, regex, bool, Values, no_values, value,
  Condition, compare, payload_match, and_cond, or_cond, not_cond, always, Action, alert, log,
  drop_packet, Rule,
}
use thor_firewall_smart.Script.Context.{
  ExecutionContext, get_str, get_i64, get_bool, ScriptResult, unwrap_or_empty, expand_string,
}

unfoldable pub matches_event : EventType → String → Bool
matches_event any t = true
matches_event network t = t == "" || t == "network"
matches_event dns t = t == "dns"
matches_event http t = t == "http"
matches_event tls t = t == "tls"
matches_event process t = t == "process"
matches_event file t = t == "file"

unfoldable pub test_int : Operator → ℤ → ℤ → Bool
test_int eq a b = a == b
test_int ne a b = not (a == b)
test_int lt a b = ltz a b
test_int gt a b = ltz b a
test_int le a b = lez a b
test_int ge a b = lez b a
test_int _ a b = false

unfoldable pub test_str : Operator → String → String → Bool
test_str eq a b = a == b
test_str ne a b = not (a == b)
test_str _ a b = false

abbrev pub same_bool : Bool → Bool → Bool
same_bool true b = b
same_bool false b = not b

unfoldable pub test_bool : Operator → Bool → Bool → Bool
test_bool eq a b = same_bool a b
test_bool ne a b = not (same_bool a b)
test_bool _ a b = false

-- Only the first of the three tests whose value has its type can apply.
unfoldable pub compare_scalar : String → Operator → Value → ExecutionContext → Bool
compare_scalar field op (int n) ctx = elim (get_i64 field ctx) [
  | none ↦ false
  | some v ↦ test_int op v n
]
compare_scalar field op (str s) ctx = elim (get_str field ctx) [
  | none ↦ false
  | some v ↦ test_str op v s
]
compare_scalar field op (bool b) ctx = elim (get_bool field ctx) [
  | none ↦ false
  | some v ↦ test_bool op v b
]
compare_scalar field op _ ctx = false

-- The closure of `any` over the items of a list.
unfoldable pub is_item : String → Value → ExecutionContext → Bool
is_item field (int n) ctx = elim (get_i64 field ctx) [ none ↦ false | some v ↦ v == n ]
is_item field (str s) ctx = elim (get_str field ctx) [ none ↦ false | some v ↦ v == s ]
is_item field _ ctx = false

unfoldable pub any_item : String → Values → ExecutionContext → Bool
any_item field no_values ctx = false
any_item field (value v vs) ctx = is_item field v ctx || any_item field vs ctx

unfoldable pub is_member : String → Value → ExecutionContext → Option Bool
is_member field (list vs) ctx = some (any_item field vs ctx)
is_member field _ ctx = none

unfoldable pub contains_value : String → Value → Bool
contains_value text (str s) = contains_str s text
contains_value text _ = false

-- One round of the loop over the actions, on what the result will hold.
unfoldable pub run_action : ExecutionContext → Action → ScriptResult → ScriptResult
run_action ctx (alert s m) r = record r { severity = s; msg = m }
run_action ctx (log message) r = record r { logs = append r.logs (expand_string message ctx ∷ []) }
run_action ctx drop_packet r = record r { drop = true }

unfoldable pub run_actions : ExecutionContext → List Action → ScriptResult → ScriptResult
run_actions ctx [] r = r
run_actions ctx (a ∷ as_) r = run_actions ctx as_ (run_action ctx a r)

abbrev pub start_result : Rule → ScriptResult
start_result rule = record {
  rule_name = rule.name;
  severity = "medium";
  msg = rule.name;
  drop = false;
  logs = [];
}

abbrev pub payload_text : ExecutionContext → String
payload_text ctx = unwrap_or_empty (from_utf8 ctx.payload)

-- `Regex`, its constructor and its test.
pub record Crates : Type 1 where
  pub Regex : Type 0
  pub new : String → Option Regex
  pub is_match : Regex → String → Bool

-- The text a pattern is compiled from.
unfoldable pub regex_text : String → Bool → String
regex_text pattern_text ci = if ci then "(?i)" ++ pattern_text else pattern_text

module _ (crates : Crates) where
  unfoldable pub match_value : String → Value → Bool
  match_value text (regex p) = elim (crates.new p) [
    | none ↦ false
    | some re ↦ crates.is_match re text
  ]
  match_value text _ = false

  unfoldable pub eval_compare : String → Operator → Value → ExecutionContext → Bool
  eval_compare field in_list v ctx = elim (is_member field v ctx) [ none ↦ false | some b ↦ b ]
  eval_compare field not_in v ctx = elim (is_member field v ctx) [ none ↦ false | some b ↦ not b ]
  eval_compare field match_regex v ctx = match_value (unwrap_or_empty (get_str field ctx)) v
  eval_compare field contains_text v ctx = contains_value (unwrap_or_empty (get_str field ctx)) v
  eval_compare field op v ctx = compare_scalar field op v ctx

  abbrev pub insert_regex :
      String → Option crates.Regex → Dict String crates.Regex → Dict String crates.Regex
  insert_regex key none cache = cache
  insert_regex key (some re) cache = insert key re cache

  unfoldable pub collect_regexes : Condition → Dict String crates.Regex → Dict String crates.Regex
  collect_regexes (payload_match p ci) cache =
      let key = regex_text p ci in
      if contains_key key cache then cache else insert_regex key (crates.new key) cache
  collect_regexes (and_cond a b) cache = collect_regexes b (collect_regexes a cache)
  collect_regexes (or_cond a b) cache = collect_regexes b (collect_regexes a cache)
  collect_regexes (not_cond c) cache = collect_regexes c cache
  collect_regexes _ cache = cache

  unfoldable pub eval_condition : Condition → ExecutionContext → Dict String crates.Regex → Bool
  eval_condition always ctx cache = true
  eval_condition (and_cond a b) ctx cache = eval_condition a ctx cache && eval_condition b ctx cache
  eval_condition (or_cond a b) ctx cache = eval_condition a ctx cache || eval_condition b ctx cache
  eval_condition (not_cond c) ctx cache = not (eval_condition c ctx cache)
  eval_condition (payload_match p ci) ctx cache = elim (lookup (regex_text p ci) cache) [
    | none ↦ false
    | some re ↦ crates.is_match re (payload_text ctx)
  ]
  eval_condition (compare field op v) ctx cache = eval_compare field op v ctx

  pub record CompiledRule : Type 0 where
    pub rule : Rule
    pub regex_cache : Dict String crates.Regex

  unfoldable pub compile : Rule → CompiledRule
  compile rule = record { rule = rule; regex_cache = collect_regexes rule.condition [] }

  unfoldable pub evaluate_rule :
      CompiledRule → ExecutionContext → List ScriptResult → List ScriptResult
  evaluate_rule cr ctx results =
      if not cr.rule.enabled
      then results
      else if not (matches_event cr.rule.event_type ctx.event_type)
      then results
      else if eval_condition cr.rule.condition ctx cr.regex_cache
      then append results (run_actions ctx cr.rule.actions (start_result cr.rule) ∷ [])
      else results

  abbrev pub evaluate_from :
      List CompiledRule → ExecutionContext → List ScriptResult → List ScriptResult
  evaluate_from [] ctx results = results
  evaluate_from (cr ∷ crs) ctx results = evaluate_from crs ctx (evaluate_rule cr ctx results)

  pub record ScriptEngine : Type 0 where
    pub rules : List CompiledRule

  abbrev pub new_engine : ScriptEngine
  new_engine = record { rules = [] }

  unfoldable pub add_rule : Rule → ScriptEngine → ScriptEngine
  add_rule rule engine = record { rules = append engine.rules (compile rule ∷ []) }

  unfoldable pub rule_count : ScriptEngine → ℕ
  rule_count engine = length engine.rules

  unfoldable pub evaluate_all : ScriptEngine → ExecutionContext → List ScriptResult
  evaluate_all engine ctx = evaluate_from engine.rules ctx []

  -- lib.rs: `add_rule` for each rule of a script.
  abbrev pub add_rules : List Rule → ScriptEngine → ScriptEngine
  add_rules [] engine = engine
  add_rules (r ∷ rs) engine = add_rules rs (add_rule r engine)

  abbrev pub add_parsed : Outcome (List Rule) → ScriptEngine → ScriptEngine
  add_parsed (ok rules) engine = add_rules rules engine
  add_parsed _ engine = engine

  -- An entry of the directory: its extension, and what reading it gives.
  abbrev pub load_entry : Option String × Option String → ScriptEngine → ScriptEngine
  load_entry (extension, none) engine = engine
  load_entry (none, some src) engine = engine
  load_entry (some e, some src) engine =
      if e == "thor" then add_parsed (parse_script src) engine else engine

  abbrev pub load_entries : List (Option String × Option String) → ScriptEngine → ScriptEngine
  load_entries [] engine = engine
  load_entries (e ∷ es) engine = load_entries es (load_entry e engine)

  -- The walk over a directory that is there, or is not.
  unfoldable pub load_scripts_from_dir :
      Option (List (Option String × Option String)) → ScriptEngine
  load_scripts_from_dir none = new_engine
  load_scripts_from_dir (some entries) = load_entries entries new_engine
