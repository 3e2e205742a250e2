-- ===== src/Script/Matches.antt =====
-- crates/thor-script/src/parser.rs: the tests of the parser on a token, and its matches.
-- token at the position and those that follow; the position never moves past the last token. Loops
-- take fuel, whose end has an outcome of its own.
use thor_firewall_smart.Prelude.{String, Bool, true, false, string_eq, ◌==◌, if◌then◌else◌}
use thor_firewall_smart.Prelude.Text.{has_char}
use thor_firewall_smart.Script.Syntax.{
  EventType, network, dns, http, tls, process, file, any, Operator, eq, ne, lt, gt, le, ge, in_list,
  match_regex, Value, str, int, regex, bool, Condition, payload_match, ScriptToken, keyword,
  identifier, string_lit, int_lit, regex_lit, l_brace, r_brace, l_paren, r_paren, r_bracket, colon,
  comma, op_eq, op_ne, op_lt, op_gt, op_le, op_ge, eof,
}
use thor_firewall_smart.Script.Parser.Outcomes.{
  Outcome, ParseError, Parser, and_then, ok, failed, expected_keyword, expected_l_brace,
  expected_r_brace, expected_name, unknown_event, expected_event, expected_regex, expected_field,
  expected_operator, expected_value, current, advance_state,
}

unfoldable pub is_eof : ScriptToken → Bool
is_eof eof = true
is_eof _ = false

unfoldable pub is_keyword : String → ScriptToken → Bool
is_keyword kw (keyword k) = k == kw
is_keyword kw _ = false

unfoldable pub is_l_brace : ScriptToken → Bool
is_l_brace l_brace = true
is_l_brace _ = false

unfoldable pub is_r_brace : ScriptToken → Bool
is_r_brace r_brace = true
is_r_brace _ = false

unfoldable pub is_l_paren : ScriptToken → Bool
is_l_paren l_paren = true
is_l_paren _ = false

unfoldable pub is_r_paren : ScriptToken → Bool
is_r_paren r_paren = true
is_r_paren _ = false

unfoldable pub is_r_bracket : ScriptToken → Bool
is_r_bracket r_bracket = true
is_r_bracket _ = false

unfoldable pub is_colon : ScriptToken → Bool
is_colon colon = true
is_colon _ = false

unfoldable pub is_comma : ScriptToken → Bool
is_comma comma = true
is_comma _ = false

-- `if *self.peek() == … { self.advance(); }`
abbrev pub skip_if : (ScriptToken → Bool) → Parser (Unit {0})
skip_if p s = ok (tt, if p (current s) then advance_state s else s)

abbrev pub require : (ScriptToken → Bool) → (ScriptToken → ParseError) → Parser (Unit {0})
require p e s = if p (current s) then ok (tt, advance_state s) else failed (e (current s))

unfoldable pub expect_keyword : String → Parser (Unit {0})
expect_keyword kw = require (is_keyword kw) (expected_keyword kw)

unfoldable pub expect_l_brace : Parser (Unit {0})
expect_l_brace = require is_l_brace expected_l_brace

unfoldable pub expect_r_brace : Parser (Unit {0})
expect_r_brace = require is_r_brace expected_r_brace

unfoldable pub event_from_str : String → Outcome EventType
event_from_str s =
    if s == "network"
    then ok network
    else if s == "dns"
    then ok dns
    else if s == "http"
    then ok http
    else if s == "tls"
    then ok tls
    else if s == "process"
    then ok process
    else if s == "file"
    then ok file
    else if s == "any"
    then ok any
    else failed (unknown_event s)

-- The matches on the token that `advance` returns.
unfoldable pub rule_name : ScriptToken → Outcome String
rule_name (string_lit s) = ok s
rule_name (identifier s) = ok s
rule_name t = failed (expected_name t)

unfoldable pub event_of : ScriptToken → Outcome EventType
event_of (keyword s) = event_from_str s
event_of (identifier s) = event_from_str s
event_of t = failed (expected_event t)

unfoldable pub field_of : ScriptToken → Outcome String
field_of (identifier s) = ok s
field_of (keyword s) = ok s
field_of t = failed (expected_field t)

unfoldable pub operator_of : ScriptToken → Outcome Operator
operator_of op_eq = ok eq
operator_of op_ne = ok ne
operator_of op_lt = ok lt
operator_of op_gt = ok gt
operator_of op_le = ok le
operator_of op_ge = ok ge
operator_of (keyword k) =
    if k == "in"
    then ok in_list
    else if k == "match"
    then ok match_regex
    else failed (expected_operator (keyword k))
operator_of t = failed (expected_operator t)

unfoldable pub payload_of : ScriptToken → Outcome Condition
payload_of (regex_lit pattern_text flags) = ok (payload_match pattern_text (has_char "i" flags))
payload_of t = failed (expected_regex t)

-- The token that `advance` returns, through one of these matches.
abbrev pub take : {A : Type 0} → (ScriptToken → Outcome A) → Parser A
take f s = and_then (f (current s)) λ a. ok (a, advance_state s)

-- The values that are one token.
unfoldable pub simple_value : ScriptToken → Outcome Value
simple_value (string_lit s) = ok (str s)
simple_value (int_lit n) = ok (int n)
simple_value (keyword k) =
    if k == "true"
    then ok (bool true)
    else if k == "false"
    then ok (bool false)
    else failed (expected_value (keyword k))
simple_value (regex_lit pattern_text flags) = ok (regex pattern_text)
simple_value t = failed (expected_value t)
