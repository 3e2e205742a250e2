-- ===== src/Script/Parser/Terms.antt =====
-- parser.rs: the methods that read names, operators, values and comparisons leave fewer tokens.
use Prim.Native.String.{String}
use thor_firewall_smart.Prelude.{
  ℕ, zero, suc, ◌≡◌, ◌≤◌, ◌+◌, ◌*◌, refl, Bool, true, false, ◌||◌, arith, Bool-cases, inl, inr,
  if-both, string_eq, ◌==◌,
}
use thor_firewall_smart.Script.Syntax.{
  ScriptToken, keyword, identifier, string_lit, eof, EventType, Operator, Value, value, list,
  compare,
}
use thor_firewall_smart.Script.Parser.Outcomes.{
  Outcome, State, pure, ◌>>=◌, ◌>>◌, current, advance_state, expected_name, expected_event,
  expected_field, expected_operator, expected_regex, expected_value,
}
use thor_firewall_smart.Script.Parser.Within.{
  size, Fine, Within, Answers, advance-Fine, size-advance, size-advance_on, weaken_lem, bind_lem,
  skip_if-Within, Reads, take-Within,
}
use thor_firewall_smart.Script.Parser.{
  is_l_bracket, parse_value, parse_values, parse_payload, parse_compare,
}
use thor_firewall_smart.Script.Matches.{
  is_eof, is_keyword, is_r_bracket, is_comma, skip_if, take, rule_name, event_of, event_from_str,
  field_of, operator_of, payload_of, simple_value,
}

pub rule_name-Reads : Reads rule_name
unfolding rule_name
rule_name-Reads = record { error = expected_name eof; on_eof = refl; always = answers }
  where
    answers : (t : ScriptToken) → Answers (rule_name t)
    answers (string_lit s) = tt
    answers _ = tt

pub field_of-Reads : Reads field_of
unfolding field_of
field_of-Reads = record { error = expected_field eof; on_eof = refl; always = answers }
  where
    answers : (t : ScriptToken) → Answers (field_of t)
    answers (keyword s) = tt
    answers _ = tt

pub payload_of-Reads : Reads payload_of
unfolding payload_of
payload_of-Reads = record { error = expected_regex eof; on_eof = refl; always = answers }
  where
    answers : (t : ScriptToken) → Answers (payload_of t)
    answers (keyword s) = tt
    answers _ = tt

event_from_str-Answers : (s : String) → Answers (event_from_str s)
unfolding event_from_str
event_from_str-Answers s =
    let P : Outcome EventType → Type 0 = Answers in
    if-both P (s == "network") tt (
      if-both P (s == "dns") tt (
        if-both P (s == "http") tt (
          if-both P (s == "tls") tt (
            if-both P (s == "process") tt
              (if-both P (s == "file") tt (if-both P (s == "any") tt tt))))))

pub event_of-Reads : Reads event_of
unfolding event_of
event_of-Reads = record { error = expected_event eof; on_eof = refl; always = answers }
  where
    answers : (t : ScriptToken) → Answers (event_of t)
    answers (keyword s) = event_from_str-Answers s
    answers (identifier s) = event_from_str-Answers s
    answers _ = tt

pub operator_of-Reads : Reads operator_of
unfolding operator_of
operator_of-Reads = record { error = expected_operator eof; on_eof = refl; always = answers }
  where
    answers : (t : ScriptToken) → Answers (operator_of t)
    answers (keyword k) =
        let P : Outcome Operator → Type 0 = Answers in
        if-both P (k == "in") tt (if-both P (k == "match") tt tt)
    answers _ = tt

pub simple_value-Reads : Reads simple_value
unfolding simple_value
simple_value-Reads = record { error = expected_value eof; on_eof = refl; always = answers }
  where
    answers : (t : ScriptToken) → Answers (simple_value t)
    answers (keyword k) =
        let P : Outcome Value → Type 0 = Answers in
        if-both P (k == "true") tt (if-both P (k == "false") tt tt)
    answers _ = tt

pub or-false : (a b : Bool) → (a || b) ≡ false → (a ≡ false) × (b ≡ false)
or-false true b h = absurd (ground (arith, h))
or-false false b h = (refl, h)

-- A loop that stops at its closing token or at `Eof` goes on at another token.
pub goes_on :
    (p : ScriptToken → Bool) (t : ScriptToken) → (p t || is_eof t) ≡ false → is_eof t ≡ false
goes_on p t h = (or-false (p t) (is_eof t) h).1

abbrev pub ValueWithin : ℕ → Type 0
ValueWithin f = (s : State) → Fine s → 2 * size s + 1 ≤ f → Within (size s) (parse_value f s)

abbrev pub ValuesWithin : ℕ → Type 0
ValuesWithin f =
    (s : State) → Fine s → 2 * size s + 2 ≤ f → Within (suc (size s)) (parse_values f s)

parse_value_suc-Within : (f : ℕ) → ValuesWithin f → ValueWithin (suc f)
unfolding parse_value
parse_value_suc-Within f values s fine h = elim (Bool-cases (is_l_bracket (current s))) [
  | inl e ↦
      let less = size-advance_on is_l_bracket s (unfold is_l_bracket in refl) fine e in
      rw (e, Within)
        (bind_lem (parse_values f) (λ vs. skip_if is_r_bracket >> pure (list vs)) (advance_state s)
          (size s) (size s)
          (weaken_lem (parse_values f (advance_state s)) (suc (size (advance_state s))) (size s)
            (values (advance_state s) (advance-Fine s fine) (omega (arith, less, h))) less)
          λ vs u fine_u lt.
            bind_lem (skip_if is_r_bracket) (λ _. pure (list vs)) u (size s) (size s)
              (skip_if-Within is_r_bracket u (size s) fine_u lt) λ _ w fine_w lt_w. (fine_w, lt_w))
  | inr e ↦ rw (e, Within) (take-Within simple_value s simple_value-Reads fine)
]

parse_values_suc-Within : (f : ℕ) → ValueWithin f → ValuesWithin f → ValuesWithin (suc f)
unfolding parse_values
parse_values_suc-Within f one values s fine h =
    elim (Bool-cases (is_r_bracket (current s) || is_eof (current s))) [
      | inl e ↦ rw (e, Within) (fine, omega arith)
      | inr e ↦
          rw (e, Within)
            (bind_lem (parse_value f)
              (λ v. skip_if is_comma >> (parse_values f >>= λ vs. pure (value v vs))) s (size s)
              (suc (size s)) (one s fine (omega (arith, h)))
              λ v u fine_u lt.
                bind_lem (skip_if is_comma) (λ _. parse_values f >>= λ vs. pure (value v vs)) u
                  (size s) (suc (size s)) (skip_if-Within is_comma u (size s) fine_u lt)
                  λ _ w fine_w lt_w.
                    bind_lem (parse_values f) (λ vs. pure (value v vs)) w (suc (size w))
                      (suc (size s)) (values w fine_w (omega (arith, h, lt_w)))
                      λ vs x fine_x lt_x. (fine_x, omega (arith, lt_x, lt_w)))
    ]

pub values-Within : (f : ℕ) → ValueWithin f × ValuesWithin f
values-Within zero = (λ s fine h. absurd (omega (arith, h)), λ s fine h. absurd (omega (arith, h)))
values-Within (suc f) =
    let (one, many) = values-Within f in
    (parse_value_suc-Within f many, parse_values_suc-Within f one many)

pub parse_payload-Within : (s : State) → Fine s → Within (size s) (parse_payload s)
unfolding parse_payload
parse_payload-Within s fine = elim (Bool-cases (is_keyword "match" (current s))) [
  | inl e ↦ rw e (
      weaken_lem (take payload_of (advance_state s)) (size (advance_state s)) (size s)
        (take-Within payload_of (advance_state s) payload_of-Reads (advance-Fine s fine))
        (size-advance s))
  | inr e ↦ rw e tt
]

pub parse_compare-Within :
    (f : ℕ) (s : State) → Fine s → 2 * size s + 1 ≤ f → Within (size s) (parse_compare f s)
unfolding parse_compare
parse_compare-Within f s fine h =
    bind_lem (take field_of)
      (λ x. take operator_of >>= λ op. parse_value f >>= λ v. pure (compare x op v)) s (size s)
      (size s) (take-Within field_of s field_of-Reads fine)
      λ x u fine_u lt.
        bind_lem (take operator_of) (λ op. parse_value f >>= λ v. pure (compare x op v)) u (size u)
          (size s) (take-Within operator_of u operator_of-Reads fine_u)
          λ op w fine_w lt_w.
            bind_lem (parse_value f) (λ v. pure (compare x op v)) w (size w) (size s)
              ((values-Within f).0 w fine_w (omega (arith, h, lt, lt_w)))
              λ v x fine_x lt_x. (fine_x, omega (arith, lt, lt_w, lt_x))
