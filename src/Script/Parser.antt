-- ===== src/Script/Parser.antt =====
-- crates/thor-script/src/parser.rs: the parser. The vector of tokens and the position in it are the
-- token at the position and those that follow; the position never moves past the last token. Loops
-- take fuel, whose end has an outcome of its own.
pub mod Outcomes
pub mod Within
pub mod Terms
pub mod Loops
pub mod ActionLoop
pub mod Total
pub mod Printer
pub mod ReadBack
pub mod RoundTrip
mod Tests
use thor_firewall_smart.Prelude.{
  ℕ, zero, suc, ◌+◌, ◌*◌, String, Option, none, some, Bool, true, false, ◌||◌, List, [], ◌∷◌,
  length, string_eq, ◌==◌, if◌then◌else◌,
}
use thor_firewall_smart.Prelude.Text.{has_char}
use thor_firewall_smart.Prelude.Int.{to_string}
use thor_firewall_smart.Script.Syntax.{
  EventType, network, dns, http, tls, process, file, any, Operator, eq, ne, lt, gt, le, ge, in_list,
  match_regex, Value, str, int, list, regex, bool, Values, no_values, value, Condition, compare,
  payload_match, and_cond, or_cond, not_cond, Action, alert, log, drop_packet, Rule, ScriptToken,
  keyword, identifier, string_lit, int_lit, regex_lit, l_brace, r_brace, l_paren, r_paren,
  l_bracket, r_bracket, colon, comma, op_eq, op_ne, op_lt, op_gt, op_le, op_ge, eof,
}
use thor_firewall_smart.Script.Lexer.{tokenize}
use thor_firewall_smart.Script.Parser.Outcomes.{
  Outcome, ParseError, Parser, State, and_then, ok, failed, out_of_fuel, pure, ◌>>=◌, ◌>>◌,
  expected_keyword, expected_l_brace, expected_r_brace, expected_name, unknown_event,
  expected_event, expected_regex, expected_match, expected_field, expected_operator, expected_value,
  expected_action, current, advance_state, advance,
}
use thor_firewall_smart.Script.Matches.{
  is_eof, is_keyword, is_r_brace, is_l_paren, is_r_paren, is_r_bracket, is_colon, is_comma, skip_if,
  expect_keyword, expect_l_brace, expect_r_brace, rule_name, event_of, field_of, operator_of,
  payload_of, take, simple_value,
}

unfoldable pub is_l_bracket : ScriptToken → Bool
is_l_bracket l_bracket = true
is_l_bracket _ = false

unfoldable mutual
  pub parse_value : ℕ → Parser Value
  parse_value zero s = out_of_fuel
  parse_value (suc f) s = elim (is_l_bracket (current s)) [
    | true ↦ (parse_values f >>= λ vs. skip_if is_r_bracket >> pure (list vs)) (advance_state s)
    | false ↦ take simple_value s
  ]

  -- The loop up to the closing bracket.
  pub parse_values : ℕ → Parser Values
  parse_values zero s = out_of_fuel
  parse_values (suc f) s = elim (is_r_bracket (current s) || is_eof (current s)) [
    | true ↦ ok (no_values, s)
    | false ↦
        (parse_value f >>= λ v. skip_if is_comma >> (parse_values f >>= λ vs. pure (value v vs))) s
  ]

unfoldable pub parse_payload : Parser Condition
unfolding payload_of
parse_payload s =
    if is_keyword "match" (current s)
    then take payload_of (advance_state s)
    else failed (expected_match (current s))

unfoldable pub parse_compare : ℕ → Parser Condition
parse_compare f = do
  field ← take field_of
  op ← take operator_of
  v ← parse_value f
  pure (compare field op v)

unfoldable pub parse_single_condition : ℕ → Parser Condition
parse_single_condition zero s = out_of_fuel
parse_single_condition (suc f) s = elim (is_keyword "not" (current s)) [
  | true ↦ (parse_single_condition f >>= λ c. pure (not_cond c)) (advance_state s)
  | false ↦ elim (is_keyword "payload" (current s)) [
    | true ↦ parse_payload (advance_state s)
    | false ↦ parse_compare (suc f) s
  ]
]

-- The loop behind the first condition.
unfoldable pub parse_more : ℕ → Condition → Parser Condition
parse_more zero c s = out_of_fuel
parse_more (suc f) c s = elim (is_keyword "and" (current s)) [
  | true ↦ (parse_single_condition f >>= λ d. parse_more f (and_cond c d)) (advance_state s)
  | false ↦ elim (is_keyword "or" (current s)) [
    | true ↦ (parse_single_condition f >>= λ d. parse_more f (or_cond c d)) (advance_state s)
    | false ↦ ok (c, s)
  ]
]

unfoldable pub parse_conditions : ℕ → Parser Condition
parse_conditions f = parse_single_condition f >>= λ c. parse_more f c

unfoldable pub key_of : ScriptToken → Outcome String
key_of (identifier s) = ok s
key_of (keyword s) = ok s
key_of t = failed (expected_field t)

abbrev pub text_of : ScriptToken → String
text_of (string_lit s) = s
text_of (int_lit n) = to_string n
text_of _ = ""

abbrev pub message_of : ScriptToken → String
message_of (string_lit s) = s
message_of _ = ""

abbrev pub with_arg : String → String → String × String → String × String
with_arg key val (severity, msg) =
    if key == "severity"
    then (val, msg)
    else if key == "msg"
    then (severity, val)
    else (severity, msg)

-- The loop over the arguments of `alert`; a key that is no name leaves it.
unfoldable pub parse_args : ℕ → String × String → Parser (String × String)
parse_args zero args s = out_of_fuel
parse_args (suc f) args s = elim (is_r_paren (current s) || is_eof (current s)) [
  | true ↦ ok (args, s)
  | false ↦ elim (key_of (current s)) [
    | ok key ↦
        (skip_if is_colon
            >> (advance >>= λ v. skip_if is_comma >> parse_args f (with_arg key (text_of v) args)))
          (advance_state s)
    | failed e ↦ ok (args, advance_state s)
    | out_of_fuel ↦ ok (args, advance_state s)
  ]
]

unfoldable pub parse_alert : ℕ → Parser Action
parse_alert f = do
  skip_if is_l_paren
  args ← parse_args f ("medium", "")
  skip_if is_r_paren
  pure (alert args.0 args.1)

unfoldable pub parse_log : Parser Action
parse_log = do skip_if is_l_paren; t ← advance; skip_if is_r_paren; pure (log (message_of t))

unfoldable pub parse_drop : Parser Action
parse_drop = do skip_if is_l_paren; skip_if is_r_paren; pure drop_packet

unfoldable pub parse_action : ℕ → Parser Action
parse_action f s = elim (is_keyword "alert" (current s)) [
  | true ↦ parse_alert f (advance_state s)
  | false ↦ elim (is_keyword "log" (current s)) [
    | true ↦ parse_log (advance_state s)
    | false ↦ elim (is_keyword "drop" (current s)) [
      | true ↦ parse_drop (advance_state s)
      | false ↦ failed (expected_action (current s))
    ]
  ]
]

unfoldable pub parse_actions : ℕ → Parser (List Action)
parse_actions zero s = out_of_fuel
parse_actions (suc f) s = elim (is_r_brace (current s) || is_eof (current s)) [
  | true ↦ ok ([], s)
  | false ↦ (parse_action f >>= λ a. parse_actions f >>= λ as_. pure (a ∷ as_)) s
]

unfoldable pub parse_rule : ℕ → Parser Rule
parse_rule f = do
  expect_keyword "rule"
  name ← take rule_name
  expect_l_brace
  expect_keyword "on"
  event ← take event_of
  expect_keyword "if"
  expect_l_brace
  c ← parse_conditions f
  expect_r_brace
  expect_keyword "then"
  expect_l_brace
  actions ← parse_actions f
  expect_r_brace
  expect_r_brace
  pure record { name = name; event_type = event; condition = c; actions = actions; enabled = true }

unfoldable pub parse_all : ℕ → Parser (List Rule)
parse_all zero s = out_of_fuel
parse_all (suc f) s = elim (is_eof (current s)) [
  | true ↦ ok ([], s)
  | false ↦ elim (is_keyword "rule" (current s)) [
    | true ↦ (parse_rule f >>= λ r. parse_all f >>= λ rs. pure (r ∷ rs)) s
    | false ↦ parse_all f (advance_state s)
  ]
]

-- The fuel for a position with so many tokens behind it.
abbrev pub enough : List ScriptToken → ℕ
enough ts = 2 * length ts + 4

-- The parser at the first token; without any there is nothing to parse.
unfoldable pub parse_tokens : List ScriptToken → Outcome (List Rule)
parse_tokens [] = ok []
parse_tokens (t ∷ ts) = and_then (parse_all (enough ts) (t, ts)) λ r. ok r.0

unfoldable pub parse_script : String → Outcome (List Rule)
parse_script src = elim (tokenize src) [ none ↦ out_of_fuel | some ts ↦ parse_tokens ts ]
