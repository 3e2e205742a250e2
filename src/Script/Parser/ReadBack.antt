-- ===== src/Script/Parser/ReadBack.antt =====
-- parser.rs: values, operators and single conditions are read back from their tokens.
use Prim.Native.String.{String}
use thor_firewall_smart.Prelude.{
  ℕ, zero, suc, ◌≡◌, ◌≤◌, ◌<◌, ◌+◌, ◌*◌, refl, ◌∙◌, true, false, ◌||◌, arith, if◌then◌else◌,
}
use thor_firewall_smart.Prelude.Text.{has_char}
use thor_firewall_smart.Script.Syntax.{
  Operator, eq, ne, lt, gt, le, ge, in_list, not_in, match_regex, not_match, contains_text, Value,
  str, int, list, regex, bool, r_bracket, keyword, Values, no_values, value, Condition, compare,
  payload_match, and_cond, or_cond, not_cond, always,
}
use thor_firewall_smart.Script.Parser.Outcomes.{State, ok, current, advance_state, ◌>>=◌}
use thor_firewall_smart.Script.Parser.Within.{size}
use thor_firewall_smart.Script.Parser.Terms.{or-false}
use thor_firewall_smart.Script.Parser.Printer.{
  put, separator, print_value, print_values, print_operator, IsSpelled, print_condition, IsSingle,
  IsChain, size-print_value,
}
use thor_firewall_smart.Script.Parser.{
  is_l_bracket, parse_more, parse_conditions, parse_value, parse_values, parse_payload,
  parse_compare, parse_single_condition,
}
use thor_firewall_smart.Script.Matches.{
  is_eof, is_keyword, is_r_bracket, is_comma, simple_value, field_of, operator_of, payload_of,
}

-- A value does not start like the end of a list.
starts_value :
    (v : Value) (s : State)
    → (is_r_bracket (current (print_value v s)) || is_eof (current (print_value v s))) ≡ false
unfolding print_value is_r_bracket is_eof
starts_value (str x) s = refl
starts_value (int n) s = refl
starts_value (bool b) s = refl
starts_value (regex p) s = refl
starts_value (list vs) s = refl

size-separator : (vs : Values) (s : State) → size s ≤ size (separator vs s)
size-separator no_values s = omega arith
size-separator (value v vs) s = omega arith

skip_separator :
    (vs : Values) (s : State)
    → is_comma (current s) ≡ false
    → (let u = separator vs (print_values vs s) in
        if is_comma (current u) then advance_state u else u)
      ≡ print_values vs s
unfolding is_comma print_values
skip_separator no_values s h = rw h refl
skip_separator (value v vs) s h = refl

abbrev ValueBack : ℕ → Type 0
ValueBack f =
    (v : Value) (s : State)
    → 2 * size (print_value v s) < f
    → parse_value f (print_value v s) ≡ ok (v, s)

abbrev ValuesBack : ℕ → Type 0
ValuesBack f =
    (vs : Values) (s : State)
    → is_comma (current s) ≡ false
    → (is_r_bracket (current s) || is_eof (current s)) ≡ true
    → 2 * size (print_values vs s) + 1 < f
    → parse_values f (print_values vs s) ≡ ok (vs, s)

parse_value-print_suc : (f : ℕ) → ValuesBack f → ValueBack (suc f)
unfolding parse_value print_value is_l_bracket is_r_bracket is_comma is_eof simple_value
parse_value-print_suc f values (str x) s h = refl
parse_value-print_suc f values (int n) s h = refl
parse_value-print_suc f values (bool true) s h = refl
parse_value-print_suc f values (bool false) s h = refl
parse_value-print_suc f values (regex p) s h = refl
parse_value-print_suc f values (list vs) s h =
    let r = put r_bracket s in rw (values vs r refl refl (omega (arith, h))) refl

parse_values-print_suc : (f : ℕ) → ValueBack f → ValuesBack f → ValuesBack (suc f)
unfolding parse_values print_values
parse_values-print_suc f one many no_values s no_comma end h = rw (end, parse_values) refl
parse_values-print_suc f one many (value v vs) s no_comma end h =
    let more = print_values vs s in
    let rest = separator vs more in
    rw
      (
        starts_value v rest,
        parse_values,
        one v rest (omega (arith, h)),
        skip_separator vs s no_comma,
        many vs s no_comma end (omega (arith, h, size-separator vs more, size-print_value v rest)),
      )
      refl

back : (f : ℕ) → ValueBack f × ValuesBack f
back zero = (λ v s h. absurd (omega (arith, h)), λ vs s no_comma end h. absurd (omega (arith, h)))
back (suc f) =
    let (one, many) = back f in (parse_value-print_suc f many, parse_values-print_suc f one many)

operator_of-print : (op : Operator) → IsSpelled op → operator_of (print_operator op) ≡ ok op
unfolding operator_of print_operator
operator_of-print eq h = refl
operator_of-print ne h = refl
operator_of-print lt h = refl
operator_of-print gt h = refl
operator_of-print le h = refl
operator_of-print ge h = refl
operator_of-print in_list h = refl
operator_of-print match_regex h = refl
operator_of-print not_in h = absurd (h refl)
operator_of-print not_match h = absurd (h refl)
operator_of-print contains_text h = absurd (h refl)

pub parse_single_condition-print :
    (f : ℕ) (c : Condition) (s : State)
    → IsSingle c
    → 2 * size (print_condition c s) + 1 < f
    → parse_single_condition f (print_condition c s) ≡ ok (c, s)
unfolding parse_single_condition parse_compare parse_payload print_condition is_keyword field_of
    payload_of has_char
parse_single_condition-print zero c s single h = absurd (omega (arith, h))
parse_single_condition-print (suc f) (compare field op v) s single h =
    rw (operator_of-print op single, (back (suc f)).0 v s (omega (arith, h))) refl
parse_single_condition-print (suc f) (payload_match p true) s single h = refl
parse_single_condition-print (suc f) (payload_match p false) s single h = refl
parse_single_condition-print (suc f) (not_cond c) s single h =
    rw (parse_single_condition-print f c s single (omega (arith, h))) refl
parse_single_condition-print f (and_cond c d) s single h = absurd single
parse_single_condition-print f (or_cond c d) s single h = absurd single
parse_single_condition-print f always s single h = absurd single

pub size-print_condition : (c : Condition) (s : State) → size s ≤ size (print_condition c s)
unfolding print_condition
size-print_condition (compare field op v) s = omega (arith, size-print_value v s)
size-print_condition (payload_match p ci) s = omega arith
size-print_condition (not_cond c) s = omega (arith, size-print_condition c s)
size-print_condition (and_cond c d) s = omega (
  arith,
  size-print_condition c (put (keyword "and") (print_condition d s)),
  size-print_condition d s,
)
size-print_condition (or_cond c d) s = omega (
  arith,
  size-print_condition c (put (keyword "or") (print_condition d s)),
  size-print_condition d s,
)
size-print_condition always s = omega arith

-- Behind a chain of conditions the loop has it, and enough fuel for what follows.
abbrev Continues : ℕ → Condition → State → Type 0
Continues f c s =
    (g : ℕ) × (2 * size s + 1 < g) × (parse_conditions f (print_condition c s) ≡ parse_more g c s)

single-Continues :
    (f : ℕ) (c : Condition) (s : State)
    → IsSingle c
    → 2 * size (print_condition c s) + 1 < f
    → Continues f c s
unfolding parse_conditions
single-Continues f c s single h = (
  f,
  omega (arith, size-print_condition c s, h),
  rw (parse_single_condition-print f c s single h) refl,
)

joined :
    (g : ℕ) (kw : String) (join : Condition → Condition) (c d : Condition) (s : State)
    → IsSingle d
    → ((k : ℕ)
        → parse_more (suc k) c (put (keyword kw) (print_condition d s))
          ≡ (parse_single_condition k >>= λ e. parse_more k (join e)) (print_condition d s))
    → 2 * size (put (keyword kw) (print_condition d s)) + 1 < g
    → (k : ℕ) × (2 * size s + 1 < k)
      × (parse_more g c (put (keyword kw) (print_condition d s)) ≡ parse_more k (join d) s)
joined zero kw join c d s single step h = absurd (omega (arith, h))
joined (suc k) kw join c d s single step h = (
  k,
  omega (arith, size-print_condition d s, h),
  step k ∙ rw (parse_single_condition-print k d s single (omega (arith, h))) refl,
)

continues :
    (f : ℕ) (c : Condition) (s : State)
    → IsChain c
    → 2 * size (print_condition c s) + 1 < f
    → Continues f c s
unfolding print_condition parse_more is_keyword
continues f (and_cond c d) s (chain, single) h =
    let u = put (keyword "and") (print_condition d s) in
    let (g, enough_g, e) = continues f c u chain h in
    let (k, enough_k, e') = joined g "and" (and_cond c) c d s single (λ k. refl) enough_g in
    (k, enough_k, e ∙ e')
continues f (or_cond c d) s (chain, single) h =
    let u = put (keyword "or") (print_condition d s) in
    let (g, enough_g, e) = continues f c u chain h in
    let (k, enough_k, e') = joined g "or" (or_cond c) c d s single (λ k. refl) enough_g in
    (k, enough_k, e ∙ e')
continues f (compare field op v) s single h = single-Continues f (compare field op v) s single h
continues f (payload_match p ci) s single h = single-Continues f (payload_match p ci) s single h
continues f (not_cond c) s single h = single-Continues f (not_cond c) s single h
continues f always s single h = absurd single

pub parse_conditions-print :
    (f : ℕ) (c : Condition) (s : State)
    → IsChain c
    → (is_keyword "and" (current s) || is_keyword "or" (current s)) ≡ false
    → 2 * size (print_condition c s) + 1 < f
    → parse_conditions f (print_condition c s) ≡ ok (c, s)
unfolding parse_more
parse_conditions-print f c s chain stop h =
    let (g, enough_g, e) = continues f c s chain h in e ∙ ends g c s stop enough_g
  where
    ends :
        (g : ℕ) (c : Condition) (s : State)
        → (is_keyword "and" (current s) || is_keyword "or" (current s)) ≡ false
        → 2 * size s + 1 < g
        → parse_more g c s ≡ ok (c, s)
    ends zero c s stop h = absurd (omega (arith, h))
    ends (suc g) c s stop h =
        let (no_and, no_or) =
          or-false (is_keyword "and" (current s)) (is_keyword "or" (current s)) stop in
        rw (parse_more, no_and, no_or) refl
