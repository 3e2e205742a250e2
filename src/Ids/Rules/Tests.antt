-- ===== src/Ids/Rules/Tests.antt =====
-- rule_parser.rs: rules that are read, and refused.
use Prim.Native.String.{String}
use thor_firewall_smart.Prelude.{◌≡◌, refl, ℕ, List, [], ◌∷◌}
use thor_firewall_smart.Prelude.{contains}
use thor_firewall_smart.Prelude.{◌&&◌, not}
use thor_firewall_smart.Prelude.Text.{starts_with, has_char}
use thor_firewall_smart.Ids.Rules.Outcomes.{EndsBy, parse_rule-EndsBy}
use thor_firewall_smart.Prelude.Int.{digits_from}
use thor_firewall_smart.Prelude.Scan.{trim_start_by, trim_end_by, span, count}
use thor_firewall_smart.Ids.RuleText.{
  find, rfind, take_chars, drop_chars, words, is_lowered, parse_unsigned, byte_len,
}
use thor_firewall_smart.Ids.RuleOptions.{read_value, read_option, options_loop, parse_options}
use thor_firewall_smart.Ids.Rules.{
  Outcome, parsed, panicked, IdsRule, parse_rule, parse_line, build_rule, parse_action,
  parse_protocol, number_or, add_content, add_pcre, set_field, set_fields, classtype_to_priority,
  derive_priority,
}

abbrev priority_of : Outcome IdsRule → ℕ
priority_of (parsed r) = IdsRule.priority r
priority_of _ = 99

abbrev contents_of : Outcome IdsRule → List String
contents_of (parsed r) = IdsRule.content_patterns r
contents_of _ = []

abbrev sample : String
sample =
    "alert TCP any any -> $HOME 80 (msg:\"a; b (c)\"; content:\"evil\"; content:\"ok\"; sid:7; priority:3; classtype:attempted-admin;)"

parse_rule_inverted : parse_rule "alert) tcp (" ≡ panicked
unfolding parse_rule parse_line build_rule find rfind take_chars drop_chars words is_lowered
    parse_action parse_protocol parse_unsigned number_or byte_len add_content add_pcre set_field
    set_fields classtype_to_priority derive_priority trim_start_by trim_end_by span count read_value
    read_option options_loop parse_options digits_from starts_with contains
parse_rule_inverted = refl

-- The priority that the rule names is replaced.
parse_rule_priority : priority_of (parse_rule sample) ≡ 1
unfolding parse_rule parse_line build_rule find rfind take_chars drop_chars words is_lowered
    parse_action parse_protocol parse_unsigned number_or byte_len add_content add_pcre set_field
    set_fields classtype_to_priority derive_priority trim_start_by trim_end_by span count read_value
    read_option options_loop parse_options digits_from starts_with contains
parse_rule_priority = refl

parse_rule_contents : contents_of (parse_rule sample) ≡ "evil" ∷ []
unfolding parse_rule parse_line build_rule find rfind take_chars drop_chars words is_lowered
    parse_action parse_protocol parse_unsigned number_or byte_len add_content add_pcre set_field
    set_fields classtype_to_priority derive_priority trim_start_by trim_end_by span count read_value
    read_option options_loop parse_options digits_from starts_with contains
parse_rule_contents = refl

parse_rule-EndsBy_example :
    EndsBy
      (has_char ")" "alert) tcp " && not (has_char ")" "sid:1;"))
      (parse_rule "alert) tcp (sid:1;")
unfolding trim_start_by trim_end_by has_char starts_with
parse_rule-EndsBy_example =
    parse_rule-EndsBy "alert) tcp (sid:1;" "alert) tcp " "sid:1;" refl refl refl
