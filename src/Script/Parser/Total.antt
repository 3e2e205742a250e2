-- ===== src/Script/Parser/Total.antt =====
-- parser.rs: the parser ends on every sequence of tokens that ends with `Eof`.
use Prim.Native.String.{String}
use thor_firewall_smart.Prelude.{
  ℕ, zero, suc, ◌≢◌, ◌≤◌, ◌<◌, ◌*◌, refl, true, List, [], ◌∷◌, length, arith, Bool-cases, inl, inr,
  string_eq,
}
use thor_firewall_smart.Script.Syntax.{ScriptToken, EventType, Condition, Action, Rule}
use thor_firewall_smart.Script.Lexer.Total.{EndsEof, tokenize_total}
use thor_firewall_smart.Script.Parser.Outcomes.{
  Outcome, Parser, State, and_then, ok, failed, out_of_fuel, pure, ◌>>=◌, current, advance_state,
  expected_keyword, expected_l_brace, expected_r_brace,
}
use thor_firewall_smart.Script.Parser.Within.{
  size, Fine, Within, Answers, advance-Fine, size-advance_past, weaken_lem, bind_lem,
  require-Within, take-Within,
}
use thor_firewall_smart.Script.Parser.Loops.{parse_conditions-Within}
use thor_firewall_smart.Script.Parser.ActionLoop.{parse_actions-Within}
use thor_firewall_smart.Script.Parser.Terms.{rule_name-Reads, event_of-Reads}
use thor_firewall_smart.Script.Parser.{
  enough, parse_tokens, parse_script, parse_all, parse_conditions, parse_actions, parse_rule,
}
use thor_firewall_smart.Script.Matches.{
  is_eof, is_keyword, is_l_brace, is_r_brace, take, rule_name, event_of, expect_keyword,
  expect_l_brace, expect_r_brace,
}

after {ℓ κ} :
    {A : Type ℓ} {B : Type κ} (p : Parser A) (q : A → Parser B) (s : State) (n : ℕ)
    → size s < n
    → Within (size s) (p s)
    → ((a : A) (u : State) → Fine u → size u < n → Within n (q a u))
    → Within n ((p >>= q) s)
after p q s n lt h k = bind_lem p q s n n (weaken_lem (p s) (size s) n h (omega (arith, lt))) k

expect_keyword-Within : (kw : String) (s : State) → Fine s → Within (size s) (expect_keyword kw s)
unfolding expect_keyword
expect_keyword-Within kw s fine =
    require-Within (is_keyword kw) (expected_keyword kw) s (unfold is_keyword in refl) fine

expect_l_brace-Within : (s : State) → Fine s → Within (size s) (expect_l_brace s)
unfolding expect_l_brace
expect_l_brace-Within s fine =
    require-Within is_l_brace expected_l_brace s (unfold is_l_brace in refl) fine

expect_r_brace-Within : (s : State) → Fine s → Within (size s) (expect_r_brace s)
unfolding expect_r_brace
expect_r_brace-Within s fine =
    require-Within is_r_brace expected_r_brace s (unfold is_r_brace in refl) fine

-- The parts of `parse_rule`, from the last.
abbrev finish : String → EventType → Condition → List Action → Parser Rule
finish name event c as_ = expect_r_brace >>= λ _. expect_r_brace >>= λ _.
    pure record { name = name; event_type = event; condition = c; actions = as_; enabled = true }

abbrev then_part : ℕ → String → EventType → Condition → Parser Rule
then_part f name event c =
    expect_keyword "then" >>= λ _. expect_l_brace >>= λ _. parse_actions f >>= finish name event c

abbrev if_part : ℕ → String → EventType → Parser Rule
if_part f name event = expect_keyword "if" >>= λ _. expect_l_brace >>= λ _.
    parse_conditions f >>= λ c. expect_r_brace >>= λ _. then_part f name event c

abbrev on_part : ℕ → String → Parser Rule
on_part f name =
    expect_l_brace >>= λ _. expect_keyword "on" >>= λ _. take event_of >>= λ e. if_part f name e

finish-Within :
    (name : String) (event : EventType) (c : Condition) (as_ : List Action) (s : State) (n : ℕ)
    → Fine s
    → size s < n
    → Within n (finish name event c as_ s)
finish-Within name event c as_ s n fine lt =
    let rule : Rule = record {
      name = name;
      event_type = event;
      condition = c;
      actions = as_;
      enabled = true;
    } in
    after expect_r_brace (λ _. expect_r_brace >>= λ _. pure rule) s n lt
      (expect_r_brace-Within s fine)
      λ _ u fine_u lt_u.
        after expect_r_brace (λ _. pure rule) u n lt_u (expect_r_brace-Within u fine_u)
          λ _ w fine_w lt_w. (fine_w, lt_w)

then_part-Within :
    (f : ℕ) (name : String) (event : EventType) (c : Condition) (s : State) (n : ℕ)
    → Fine s
    → size s < n
    → n ≤ f
    → Within n (then_part f name event c s)
then_part-Within f name event c s n fine lt h =
    after (expect_keyword "then")
      (λ _. expect_l_brace >>= λ _. parse_actions f >>= finish name event c) s n lt
      (expect_keyword-Within "then" s fine)
      λ _ u fine_u lt_u.
        after expect_l_brace (λ _. parse_actions f >>= finish name event c) u n lt_u
          (expect_l_brace-Within u fine_u)
          λ _ w fine_w lt_w.
            bind_lem (parse_actions f) (finish name event c) w n n
              (weaken_lem (parse_actions f w) (suc (size w)) n
                (parse_actions-Within f w fine_w (omega (arith, lt_w, h))) lt_w)
              λ as_ x fine_x lt_x. finish-Within name event c as_ x n fine_x lt_x

if_part-Within :
    (f : ℕ) (name : String) (event : EventType) (s : State) (n : ℕ)
    → Fine s
    → size s < n
    → 2 * n ≤ f
    → Within n (if_part f name event s)
if_part-Within f name event s n fine lt h =
    let rest = λ (c : Condition). expect_r_brace >>= λ _. then_part f name event c in
    after (expect_keyword "if") (λ _. expect_l_brace >>= λ _. parse_conditions f >>= rest) s n lt
      (expect_keyword-Within "if" s fine)
      λ _ u fine_u lt_u.
        after expect_l_brace (λ _. parse_conditions f >>= rest) u n lt_u
          (expect_l_brace-Within u fine_u)
          λ _ w fine_w lt_w.
            after (parse_conditions f) rest w n lt_w
              (parse_conditions-Within f w fine_w (omega (arith, lt_w, h)))
              λ c x fine_x lt_x.
                after expect_r_brace (λ _. then_part f name event c) x n lt_x
                  (expect_r_brace-Within x fine_x)
                  λ _ y fine_y lt_y.
                    then_part-Within f name event c y n fine_y lt_y (omega (arith, h))

on_part-Within :
    (f : ℕ) (name : String) (s : State) (n : ℕ)
    → Fine s
    → size s < n
    → 2 * n ≤ f
    → Within n (on_part f name s)
on_part-Within f name s n fine lt h =
    after expect_l_brace (λ _. expect_keyword "on" >>= λ _. take event_of >>= λ e. if_part f name e)
      s n lt (expect_l_brace-Within s fine)
      λ _ u fine_u lt_u.
        after (expect_keyword "on") (λ _. take event_of >>= λ e. if_part f name e) u n lt_u
          (expect_keyword-Within "on" u fine_u)
          λ _ w fine_w lt_w.
            after (take event_of) (λ e. if_part f name e) w n lt_w
              (take-Within event_of w event_of-Reads fine_w)
              λ e x fine_x lt_x. if_part-Within f name e x n fine_x lt_x h

parse_rule-Within : (f : ℕ) (s : State) → Fine s → 2 * size s ≤ f → Within (size s) (parse_rule f s)
unfolding parse_rule
parse_rule-Within f s fine h =
    bind_lem (expect_keyword "rule") (λ _. take rule_name >>= λ name. on_part f name) s (size s)
      (size s) (expect_keyword-Within "rule" s fine)
      λ _ u fine_u lt_u.
        after (take rule_name) (λ name. on_part f name) u (size s) lt_u
          (take-Within rule_name u rule_name-Reads fine_u)
          λ name w fine_w lt_w. on_part-Within f name w (size s) fine_w lt_w h

parse_all-Within :
    (f : ℕ) (s : State) → Fine s → 2 * size s < f → Within (suc (size s)) (parse_all f s)
unfolding parse_all
parse_all-Within zero s fine h = absurd (omega (arith, h))
parse_all-Within (suc f) s fine h = elim (Bool-cases (is_eof (current s))) [
  | inl e ↦ rw (e, Within) (fine, omega arith)
  | inr n ↦
      let less = size-advance_past s fine n in
      rw (n, Within)
        (elim (Bool-cases (is_keyword "rule" (current s))) [
          | inl e ↦
              rw (e, Within)
                (bind_lem (parse_rule f) (λ r. parse_all f >>= λ rs. pure (r ∷ rs)) s (size s)
                  (suc (size s)) (parse_rule-Within f s fine (omega (arith, h)))
                  λ r u fine_u lt.
                    bind_lem (parse_all f) (λ rs. pure (r ∷ rs)) u (suc (size u)) (suc (size s))
                      (parse_all-Within f u fine_u (omega (arith, h, lt)))
                      λ rs x fine_x lt_x. (fine_x, omega (arith, lt, lt_x)))
          | inr m ↦
              rw (m, Within)
                (weaken_lem (parse_all f (advance_state s)) (suc (size (advance_state s)))
                  (suc (size s))
                  (parse_all-Within f (advance_state s) (advance-Fine s fine)
                    (omega (arith, h, less)))
                  (omega (arith, less)))
        ])
]

Within-Answers :
    (n : ℕ) (r : Outcome (List Rule × State)) → Within n r → Answers (and_then r λ x. ok x.0)
Within-Answers n (ok x) h = tt
Within-Answers n (failed e) h = tt
Within-Answers n out_of_fuel h = h

parse_tokens-Answers : (ts : List ScriptToken) → EndsEof ts → Answers (parse_tokens ts)
unfolding parse_tokens
parse_tokens-Answers [] h = tt
parse_tokens-Answers (t ∷ ts) h =
    Within-Answers (suc (length ts)) (parse_all (enough ts) (t, ts))
      (parse_all-Within (enough ts) (t, ts) h (omega arith))

never_out_of_fuel : (r : Outcome (List Rule)) → Answers r → r ≢ out_of_fuel
never_out_of_fuel (ok a) h e = cc
never_out_of_fuel (failed x) h e = cc
never_out_of_fuel out_of_fuel h e = absurd h

-- On every source the parser ends, with rules or with an error: the rounds it is given are never used
-- up.
pub parse_script_total : (src : String) → parse_script src ≢ out_of_fuel
unfolding parse_script
parse_script_total src =
    let (ts, e, ends) = tokenize_total src in
    rw (e, parse_script) (never_out_of_fuel (parse_tokens ts) (parse_tokens-Answers ts ends))
