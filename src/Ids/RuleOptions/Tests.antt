-- ===== src/Ids/RuleOptions/Tests.antt =====
-- rule_parser.rs: options that are read back.
use thor_firewall_smart.Prelude.{◌≡◌, refl, List, [], ◌∷◌, some, none}
use thor_firewall_smart.Prelude.Scan.{trim_start_by, trim_end_by}
use thor_firewall_smart.Prelude.Text.{has_char}
use thor_firewall_smart.Ids.RuleOptions.{RuleOption, parse_options}
use thor_firewall_smart.Ids.RuleOptions.Values.{quoted, done}
use thor_firewall_smart.Ids.RuleOptions.ReadBack.{IsValue, print, parse_options-print}

abbrev sample_options : List RuleOption
sample_options =
    record { keyword = "msg"; value = some "\"a; b (\"" }
    ∷ record { keyword = "nocase"; value = none }
    ∷ []

sample-IsValue : IsValue (some "\"a; b (\"")
unfolding trim_start_by trim_end_by has_char
sample-IsValue = (quoted "\"" "a; b (" refl refl done, refl)

parse_options-print_example : parse_options (print sample_options) ≡ some sample_options
unfolding trim_start_by trim_end_by
parse_options-print_example = parse_options-print sample_options (
  ((refl, (refl, (refl, (refl, tt))), refl), sample-IsValue),
  (((refl, (refl, (refl, (refl, (refl, (refl, (refl, tt)))))), refl), tt), tt),
)
