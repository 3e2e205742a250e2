-- ===== src/Ids/Rules.antt =====
-- crates/thor-agent/src/ids/rule_parser.rs: the types of a rule and `parse_rule`.
pub mod Outcomes
mod Tests
use Prim.Native.String.{String}
use thor_firewall_smart.Prelude.{
  ℕ, ◌+◌, ◌-◌, Bool, true, false, not, ◌&&◌, ◌||◌, Option, none, some, List, [], ◌∷◌, ◌++◌, ltb,
  ◌==◌, nat_eq, string_eq, if◌then◌else◌, contains,
}
use thor_firewall_smart.Prelude.Text.{starts_with}
use thor_firewall_smart.Ids.RuleText.{
  find, rfind, take_chars, drop_chars, split_whitespace, is_lowered, parse_unsigned, trim_quotes,
  byte_len,
}
use thor_firewall_smart.Prelude.Scan.{trim, trim_by}
use thor_firewall_smart.Ids.RuleOptions.{RuleOption, parse_options}

pub data IdsAction : Type 0 where
  alert drop_action pass reject log : IdsAction

pub data IdsProtocol : Type 0 where
  tcp udp icmp ip http dns tls ftp smtp ssh any : IdsProtocol

pub record IdsRule : Type 0 where
  pub action : IdsAction
  pub protocol : IdsProtocol
  pub src_addr : String
  pub src_port : String
  pub direction : String
  pub dst_addr : String
  pub dst_port : String
  pub msg : String
  pub sid : ℕ
  pub rev : ℕ
  pub priority : ℕ
  pub classtype : Option String
  pub options : List RuleOption
  pub content_patterns : List String
  pub pcre_patterns : List String
  pub flow : Option String
  pub metadata : List String

-- The texts of `bail!` and `context`.
pub data RuleError : Type 0 where
  empty_or_comment no_options_paren no_closing_paren : RuleError
  header_too_short : List String → RuleError
  unknown_action : String → RuleError

pub data Outcome {ℓ} (A : Type ℓ) : Type ℓ where
  parsed : A → Outcome A
  refused : RuleError → Outcome A
  panicked out_of_fuel : Outcome A

unfoldable pub parse_action : String → Outcome IdsAction
parse_action s =
    if is_lowered s "alert"
    then parsed alert
    else if is_lowered s "drop"
    then parsed drop_action
    else if is_lowered s "pass"
    then parsed pass
    else if is_lowered s "reject"
    then parsed reject
    else if is_lowered s "log"
    then parsed log
    else refused (unknown_action s)

unfoldable pub parse_protocol : String → IdsProtocol
parse_protocol s =
    if is_lowered s "tcp"
    then tcp
    else if is_lowered s "udp"
    then udp
    else if is_lowered s "icmp"
    then icmp
    else if is_lowered s "ip"
    then ip
    else if is_lowered s "http"
    then http
    else if is_lowered s "dns"
    then dns
    else if is_lowered s "tls" || is_lowered s "ssl"
    then tls
    else if is_lowered s "ftp"
    then ftp
    else if is_lowered s "smtp"
    then smtp
    else if is_lowered s "ssh"
    then ssh
    else any

-- `opt.value.as_deref().unwrap_or(…).parse().unwrap_or(default)`, where the text parses to the
-- default.
unfoldable pub number_or : ℕ → ℕ → Option String → ℕ
number_or bits default none = default
number_or bits default (some text) = elim (parse_unsigned bits text) [ none ↦ default | some n ↦ n ]

-- The variables of `parse_rule` that the options set.
pub record Fields : Type 0 where
  pub msg : String
  pub sid : ℕ
  pub rev : ℕ
  pub priority : ℕ
  pub classtype : Option String
  pub content_patterns : List String
  pub pcre_patterns : List String
  pub flow : Option String
  pub metadata : List String

abbrev pub new_fields : Fields
new_fields = record {
  msg = "";
  sid = 0;
  rev = 1;
  priority = 3;
  classtype = none;
  content_patterns = [];
  pcre_patterns = [];
  flow = none;
  metadata = [];
}

abbrev pub text_or_empty : Option String → String
text_or_empty none = ""
text_or_empty (some v) = v

unfoldable pub add_content : Option String → List String → List String
add_content none patterns = patterns
add_content (some v) patterns =
    let cleaned = trim_quotes v in
    if not (starts_with cleaned "|") && ltb 2 (byte_len cleaned)
    then patterns ++ (cleaned ∷ [])
    else patterns

unfoldable pub add_pcre : Option String → List String → List String
add_pcre none patterns = patterns
add_pcre (some v) patterns = patterns ++ (trim_quotes (trim_by (λ c. c == b'/') v) ∷ [])

abbrev pub add_metadata : Option String → List String → List String
add_metadata none texts = texts
add_metadata (some v) texts = texts ++ (v ∷ [])

-- One round of the loop over the options.
unfoldable pub set_field : Fields → RuleOption → Fields
set_field f o =
    let v = RuleOption.value o in
    let word = RuleOption.keyword o in
    if word == "msg"
    then record f { msg = trim_quotes (text_or_empty v) }
    else if word == "sid"
    then record f { sid = number_or 32 0 v }
    else if word == "rev"
    then record f { rev = number_or 32 1 v }
    else if word == "priority"
    then record f { priority = number_or 8 3 v }
    else if word == "classtype"
    then record f { classtype = elim v [ none ↦ none | some t ↦ some (trim_quotes t) ] }
    else if word == "content"
    then record f { content_patterns = add_content v (Fields.content_patterns f) }
    else if word == "pcre"
    then record f { pcre_patterns = add_pcre v (Fields.pcre_patterns f) }
    else if word == "flow"
    then record f { flow = v }
    else if word == "metadata"
    then record f { metadata = add_metadata v (Fields.metadata f) }
    else f

unfoldable pub set_fields : Fields → List RuleOption → Fields
set_fields f [] = f
set_fields f (o ∷ os) = set_fields (set_field f o) os

unfoldable pub classtype_to_priority : String → ℕ
classtype_to_priority ct =
    if contains
      ("attempted-admin" ∷ "successful-admin" ∷ "web-application-attack" ∷ "trojan-activity"
        ∷ "command-and-control" ∷ "shellcode-detect" ∷ [])
      ct
    then 1
    else if contains
        ("attempted-recon" ∷ "network-scan" ∷ "policy-violation" ∷ "protocol-command-decode" ∷ [])
        ct
    then 3
    else 2

unfoldable pub derive_priority : ℕ → Option String → ℕ
derive_priority p none = p
derive_priority p (some ct) = if p == 3 then classtype_to_priority ct else p

abbrev pub pure {ℓ} : {A : Type ℓ} → A → Outcome A
pure a = parsed a

infixl 1 ◌>>=◌
abbrev pub ◌>>=◌ {ℓ κ} : {A : Type ℓ} {B : Type κ} → Outcome A → (A → Outcome B) → Outcome B
◌>>=◌ (parsed a) k = k a
◌>>=◌ (refused e) k = refused e
◌>>=◌ panicked k = panicked
◌>>=◌ out_of_fuel k = out_of_fuel

abbrev pub of_options : Option (List RuleOption) → Outcome (List RuleOption)
of_options none = out_of_fuel
of_options (some os) = parsed os

-- The rule of a header's words and the options.
unfoldable pub build_rule : List String → Option (List RuleOption) → Outcome IdsRule
build_rule (a ∷ p ∷ sa ∷ sp ∷ d ∷ da ∷ dp ∷ more) os = do
  kind ← parse_action a
  opts ← of_options os
  let f = set_fields new_fields opts
  pure (record {
    action = kind;
    protocol = parse_protocol p;
    src_addr = sa;
    src_port = sp;
    direction = d;
    dst_addr = da;
    dst_port = dp;
    msg = Fields.msg f;
    sid = Fields.sid f;
    rev = Fields.rev f;
    priority = derive_priority (Fields.priority f) (Fields.classtype f);
    classtype = Fields.classtype f;
    options = opts;
    content_patterns = Fields.content_patterns f;
    pcre_patterns = Fields.pcre_patterns f;
    flow = Fields.flow f;
    metadata = Fields.metadata f;
  })
build_rule parts os = refused (header_too_short parts)

-- `&line[paren_start + 1..paren_end]` is a slice only if the `(` comes before the `)`.
unfoldable pub parse_line : String → Option ℕ → Option ℕ → Outcome IdsRule
parse_line line none paren_end = refused no_options_paren
parse_line line (some paren_start) none = refused no_closing_paren
parse_line line (some paren_start) (some paren_end) =
    let options_str =
      take_chars (paren_end - (paren_start + 1)) (drop_chars (paren_start + 1) line) in
    let parts = split_whitespace (trim (take_chars paren_start line)) in
    if ltb paren_end (paren_start + 1)
    then panicked
    else build_rule parts (parse_options options_str)

unfoldable pub parse_rule : String → Outcome IdsRule
parse_rule text =
    let line = trim text in
    if line == "" || starts_with line "#"
    then refused empty_or_comment
    else parse_line line (find b'(' line) (rfind b')' line)
