-- ===== src/Script/Parser/Printer.antt =====
-- parser.rs: the tokens that a rule is written with, in front of a state of the parser.
use Prim.Native.String.{String}
use thor_firewall_smart.Prelude.{◌≡◌, ◌≢◌, ◌≤◌, ◌<◌, true, List, [], ◌∷◌, arith, if◌then◌else◌}
use thor_firewall_smart.Script.Syntax.{
  EventType, network, dns, http, tls, process, file, any, Operator, eq, ne, lt, gt, le, ge, in_list,
  match_regex, Value, str, int, list, regex, bool, Values, no_values, value, Condition, compare,
  payload_match, and_cond, or_cond, not_cond, always, Action, alert, log, drop_packet, Rule,
  ScriptToken, keyword, identifier, string_lit, int_lit, regex_lit, l_brace, r_brace, l_paren,
  r_paren, l_bracket, r_bracket, colon, comma, op_eq, op_ne, op_lt, op_gt, op_le, op_ge, eof,
}
use thor_firewall_smart.Script.Parser.Outcomes.{State}
use thor_firewall_smart.Script.Parser.Within.{size}

abbrev pub put : ScriptToken → State → State
put t s = (t, s.0 ∷ s.1)

abbrev pub separator : Values → State → State
separator no_values s = s
separator (value v vs) s = put comma s

unfoldable mutual
  pub print_value : Value → State → State
  print_value (str x) s = put (string_lit x) s
  print_value (int n) s = put (int_lit n) s
  print_value (bool b) s = put (keyword (if b then "true" else "false")) s
  print_value (regex p) s = put (regex_lit p "") s
  print_value (list vs) s = put l_bracket (print_values vs (put r_bracket s))

  pub print_values : Values → State → State
  print_values no_values s = s
  print_values (value v vs) s = print_value v (separator vs (print_values vs s))

-- The operators that have a spelling.
unfoldable pub print_operator : Operator → ScriptToken
print_operator eq = op_eq
print_operator ne = op_ne
print_operator lt = op_lt
print_operator gt = op_gt
print_operator le = op_le
print_operator ge = op_ge
print_operator in_list = keyword "in"
print_operator match_regex = keyword "match"
print_operator _ = eof

abbrev pub IsSpelled : Operator → Type 0
IsSpelled op = print_operator op ≢ eof

unfoldable pub print_condition : Condition → State → State
print_condition (compare field op v) s =
    put (identifier field) (put (print_operator op) (print_value v s))
print_condition (payload_match p ci) s =
    put (keyword "payload") (put (keyword "match") (put (regex_lit p (if ci then "i" else "")) s))
print_condition (not_cond c) s = put (keyword "not") (print_condition c s)
print_condition (and_cond c d) s = print_condition c (put (keyword "and") (print_condition d s))
print_condition (or_cond c d) s = print_condition c (put (keyword "or") (print_condition d s))
print_condition always s = s

-- A condition with no `and` and no `or`.
abbrev pub IsSingle : Condition → Type 0
IsSingle (compare field op v) = IsSpelled op
IsSingle (payload_match p ci) = Unit
IsSingle (not_cond c) = IsSingle c
IsSingle _ = ⊥

-- A chain of such conditions, joined from the left.
abbrev pub IsChain : Condition → Type 0
IsChain (and_cond c d) = IsChain c × IsSingle d
IsChain (or_cond c d) = IsChain c × IsSingle d
IsChain c = IsSingle c

unfoldable pub print_action : Action → State → State
print_action (alert severity msg) s = put (keyword "alert") (
    put l_paren (
      put (identifier "severity") (
        put colon (
          put (string_lit severity) (
            put comma
              (put (identifier "msg") (put colon (put (string_lit msg) (put r_paren s)))))))))
print_action (log message) s =
    put (keyword "log") (put l_paren (put (string_lit message) (put r_paren s)))
print_action drop_packet s = put (keyword "drop") (put l_paren (put r_paren s))

unfoldable pub print_actions : List Action → State → State
print_actions [] s = s
print_actions (a ∷ as_) s = print_action a (print_actions as_ s)

unfoldable pub event_name : EventType → String
event_name network = "network"
event_name dns = "dns"
event_name http = "http"
event_name tls = "tls"
event_name process = "process"
event_name file = "file"
event_name any = "any"

-- The braces that close the actions and the rule.
abbrev pub closing : State → State
closing s = put r_brace (put r_brace s)

abbrev pub actions_part : Rule → State → State
actions_part r s = put (keyword "then") (put l_brace (print_actions r.actions (closing s)))

abbrev pub condition_part : Rule → State → State
condition_part r s =
    put (keyword "if") (put l_brace (print_condition r.condition (put r_brace (actions_part r s))))

unfoldable pub print_rule : Rule → State → State
print_rule r s = put (keyword "rule") (
    put (string_lit r.name) (
      put l_brace
        (put (keyword "on") (put (identifier (event_name r.event_type)) (condition_part r s)))))

-- A rule that has a text: it is enabled, and its condition is a chain.
abbrev pub IsWritten : Rule → Type 0
IsWritten r = (r.enabled ≡ true) × IsChain r.condition

unfoldable pub print_rules : List Rule → State
print_rules [] = (eof, [])
print_rules (r ∷ rs) = print_rule r (print_rules rs)

mutual
  unfolding print_value print_values

  pub size-print_value : (v : Value) (s : State) → size s < size (print_value v s)
  size-print_value (str x) s = omega arith
  size-print_value (int n) s = omega arith
  size-print_value (bool b) s = omega arith
  size-print_value (regex p) s = omega arith
  size-print_value (list vs) s = omega (arith, size-print_values vs (put r_bracket s))

  size-print_values : (vs : Values) (s : State) → size s ≤ size (print_values vs s)
  size-print_values no_values s = omega arith
  size-print_values (value v no_values) s = omega (arith, size-print_value v s)
  size-print_values (value v (value w ws)) s =
      let more = print_values (value w ws) s in
      omega (arith, size-print_value v (put comma more), size-print_values (value w ws) s)
