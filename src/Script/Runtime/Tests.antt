-- ===== src/Script/Runtime/Tests.antt =====
-- runtime.rs: rules run on contexts, with a concrete `regex` that looks for a text.
use Prim.Native.String.{String}
use thor_firewall_smart.Prelude.{
  ◌≡◌, refl, true, false, Option, none, some, List, [], ◌∷◌, string_eq, if◌then◌else◌,
}
use thor_firewall_smart.Prelude.Int.{pos, negsuc, parse_i64, digits_from, show_from, to_string}
use thor_firewall_smart.Prelude.Text.{starts_with, contains_str}
use thor_firewall_smart.Prelude.Dict.{insert, lookup}
use thor_firewall_smart.Script.Lexer.{count}
use thor_firewall_smart.Script.Syntax.{
  network, ge, int, Condition, compare, payload_match, and_cond, or_cond, not_cond, alert, log,
  drop_packet, Rule,
}
use thor_firewall_smart.Script.Runtime.Cache.{meaning, eval_condition-collect_regexes}
use thor_firewall_smart.Script.Runtime.Reports.{
  reports, rules_of_all, evaluate_all-load_scripts_from_dir,
}
use thor_firewall_smart.Script.Runtime.{
  Crates, eval_condition, collect_regexes, evaluate_all, load_scripts_from_dir,
}
use thor_firewall_smart.Script.Context.{
  ExecutionContext, new_context, set_str, set_i64, set_payload, set_event_type, get_i64,
  replace_from, replace_strs, replace_ints, expand_string,
}

-- A pattern that starts with a bracket does not compile.
abbrev plain_search : Crates
plain_search = record {
  Regex = String;
  new = λ p. if starts_with p "(" then none else some p;
  is_match = λ re text. contains_str re text;
}

abbrev beacon : ExecutionContext
beacon = set_payload (b'x' ∷ b'e' ∷ b'v' ∷ b'i' ∷ b'l' ∷ []) (
    set_str "src_ip" "10.0.0.9"
      (set_i64 "dst_port" (pos 4444) (set_event_type "network" new_context)))

abbrev shell : Condition
shell =
    and_cond (compare "dst_port" ge (int (pos 1024)))
      (or_cond (payload_match "evil" false) (not_cond (payload_match "evil" true)))

abbrev shell_rule : Rule
shell_rule = record {
  name = "Shell";
  event_type = network;
  condition = shell;
  actions = log "from ${src_ip} to ${dst_port}" ∷ alert "high" "shell" ∷ drop_packet ∷ [];
  enabled = true;
}

expand_both : expand_string "from ${src_ip} to ${dst_port}" beacon ≡ "from 10.0.0.9 to 4444"
unfolding expand_string replace_strs replace_ints replace_from set_str set_i64 set_payload
    set_event_type insert starts_with count to_string show_from
expand_both = refl

-- A variable that holds the text of a number is compared as a number.
port_of_text : get_i64 "port" (set_str "port" "-12" new_context) ≡ some (negsuc 11)
unfolding get_i64 set_str insert lookup parse_i64 digits_from
port_of_text = refl

eval_condition-collect_regexes_example :
    eval_condition plain_search shell beacon (collect_regexes plain_search shell [])
    ≡ meaning plain_search shell beacon
eval_condition-collect_regexes_example = eval_condition-collect_regexes plain_search shell beacon

abbrev files : List (Option String × Option String)
files =
    (some "thor", some "rule \"a\" { on any if { x == 1 } then { drop() } }")
    ∷ (some "txt", some "rule")
    ∷ (some "thor", some "rule \"b\" { on any }")
    ∷ (none, some "rule")
    ∷ (some "thor", none)
    ∷ []

evaluate_all-load_scripts_from_dir_example :
    evaluate_all plain_search (load_scripts_from_dir plain_search (some files)) beacon
    ≡ reports plain_search beacon (rules_of_all plain_search files)
evaluate_all-load_scripts_from_dir_example =
    evaluate_all-load_scripts_from_dir plain_search beacon files
