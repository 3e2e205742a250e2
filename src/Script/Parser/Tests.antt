-- ===== src/Script/Parser/Tests.antt =====
-- parser.rs: scripts and their rules.
use thor_firewall_smart.Prelude.{◌≡◌, ◌≢◌, refl, true, [], ◌∷◌, string_eq, contains}
use thor_firewall_smart.Prelude.Int.{pos, negsuc, parse_i64, digits_from}
use thor_firewall_smart.Prelude.Text.{has_char}
use thor_firewall_smart.Script.Syntax.{
  network, in_list, match_regex, int, list, regex, no_values, value, compare, payload_match,
  and_cond, or_cond, not_cond, alert, log, drop_packet, Rule, plus,
}
use thor_firewall_smart.Script.Lexer.{
  tokenize, lex, lex_step, lex_slash, lex_number, lex_word, lex_string, lex_other, lex_punct, span,
  skip_line, read_string, read_regex, count,
}
use thor_firewall_smart.Script.Parser.Outcomes.{ok, failed, out_of_fuel, expected_action}
use thor_firewall_smart.Script.Parser.Total.{parse_script_total}
use thor_firewall_smart.Script.Parser.RoundTrip.{parse_tokens-print}
use thor_firewall_smart.Script.Parser.Printer.{print_rules, print_operator}
use thor_firewall_smart.Script.Parser.{
  is_l_bracket, parse_tokens, parse_script, parse_all, parse_value, parse_values, parse_payload,
  parse_compare, parse_single_condition, parse_more, parse_conditions, key_of, parse_args,
  parse_alert, parse_log, parse_drop, parse_action, parse_actions, parse_rule,
}
use thor_firewall_smart.Script.Matches.{
  is_eof, is_keyword, is_l_brace, is_r_brace, is_l_paren, is_r_paren, is_r_bracket, is_colon,
  is_comma, rule_name, event_of, event_from_str, field_of, operator_of, payload_of, simple_value,
  expect_keyword, expect_l_brace, expect_r_brace,
}

abbrev bad_ports : Rule
bad_ports = record {
  name = "Bad Ports";
  event_type = network;
  condition =
      or_cond
        (and_cond
          (compare "dst_port" in_list
            (list (value (int (pos 4444)) (value (int (negsuc 0)) no_values))))
          (not_cond (payload_match "EVIL" true)))
        (compare "host" match_regex (regex "evil[.]com"));
  actions = alert "high" "bad \"port\"" ∷ log "seen" ∷ drop_packet ∷ [];
  enabled = true;
}

-- `or` and `and` have one precedence, and both associate to the left.
read_bad_ports :
    parse_script
      "rule \"Bad Ports\" { on network if { dst_port in [4444, -1,] and not payload match /EVIL/i or host match /evil[.]com/ } then { alert(severity: \"high\", msg: \"bad \\\"port\\\"\") log(\"seen\") drop() } }"
    ≡ ok (bad_ports ∷ [])
unfolding parse_script tokenize lex lex_step lex_slash lex_number lex_word lex_string lex_other
    lex_punct span skip_line read_string read_regex count is_eof is_keyword is_l_brace is_r_brace
    is_l_paren is_r_paren is_l_bracket is_r_bracket is_colon is_comma parse_tokens parse_all
    rule_name event_of event_from_str field_of operator_of payload_of simple_value parse_value
    parse_values parse_payload parse_compare parse_single_condition parse_more parse_conditions
    key_of parse_args parse_alert parse_log parse_drop parse_action parse_actions parse_rule
    expect_keyword expect_l_brace expect_r_brace has_char parse_i64 digits_from contains
read_bad_ports = refl

-- The action of the example in lib.rs: a text, `+` and a call.
log_of_sum :
    parse_script
      "rule \"C2\" { on network if { dst_port in [4444] } then { log(\"C2 on \" + str(dst_ip)) } }"
    ≡ failed (expected_action plus)
unfolding parse_script tokenize lex lex_step lex_slash lex_number lex_word lex_string lex_other
    lex_punct span skip_line read_string read_regex count is_eof is_keyword is_l_brace is_r_brace
    is_l_paren is_r_paren is_l_bracket is_r_bracket is_colon is_comma parse_tokens parse_all
    rule_name event_of event_from_str field_of operator_of payload_of simple_value parse_value
    parse_values parse_payload parse_compare parse_single_condition parse_more parse_conditions
    key_of parse_args parse_alert parse_log parse_drop parse_action parse_actions parse_rule
    expect_keyword expect_l_brace expect_r_brace has_char parse_i64 digits_from contains
log_of_sum = refl

parse_script_total_example : parse_script "rule \"a\" { on dns if { x in [1, 2" ≢ out_of_fuel
parse_script_total_example = parse_script_total "rule \"a\" { on dns if { x in [1, 2"

parse_tokens-print_example :
    parse_tokens
      ((print_rules (bad_ports ∷ bad_ports ∷ [])).0 ∷ (print_rules (bad_ports ∷ bad_ports ∷ [])).1)
    ≡ ok (bad_ports ∷ bad_ports ∷ [])
parse_tokens-print_example = parse_tokens-print (bad_ports ∷ bad_ports ∷ []) (
  (refl, (((λ e. unfold print_operator in cc), tt), (λ e. unfold print_operator in cc))),
  ((refl, (((λ e. unfold print_operator in cc), tt), (λ e. unfold print_operator in cc))), tt),
)
