-- ===== src/Script/Parser/RoundTrip.antt =====
-- parser.rs: rules are read back from the tokens they are written with.
use thor_firewall_smart.Prelude.{
  ℕ, zero, suc, ◌≡◌, ◌≤◌, ◌<◌, ◌+◌, ◌*◌, refl, sym, ap, true, false, ◌||◌, List, [], ◌∷◌, All,
  arith, string_eq,
}
use thor_firewall_smart.Script.Syntax.{
  EventType, network, dns, http, tls, process, file, any, Action, alert, log, drop_packet, Rule,
  eof, r_brace, identifier,
}
use thor_firewall_smart.Script.Parser.Outcomes.{State, ok, current}
use thor_firewall_smart.Script.Parser.Within.{size}
use thor_firewall_smart.Script.Parser.ReadBack.{parse_conditions-print, size-print_condition}
use thor_firewall_smart.Script.Parser.Printer.{
  put, print_action, print_actions, event_name, closing, actions_part, print_rule, IsWritten,
  print_rules,
}
use thor_firewall_smart.Script.Parser.{
  key_of, parse_args, parse_alert, parse_log, parse_drop, parse_action, parse_actions, parse_rule,
  parse_all, parse_tokens, enough,
}
use thor_firewall_smart.Script.Matches.{
  is_eof, is_keyword, is_l_brace, is_r_brace, is_l_paren, is_r_paren, is_colon, is_comma, rule_name,
  event_of, event_from_str, expect_keyword, expect_l_brace, expect_r_brace,
}

parse_action-print :
    (f : ℕ) (a : Action) (s : State) → 3 ≤ f → parse_action f (print_action a s) ≡ ok (a, s)
unfolding parse_action parse_alert parse_log parse_drop parse_args print_action is_keyword
    is_l_paren is_r_paren is_colon is_comma is_eof key_of
parse_action-print zero a s h = absurd (omega (arith, h))
parse_action-print (suc zero) a s h = absurd (omega (arith, h))
parse_action-print (suc (suc zero)) a s h = absurd (omega (arith, h))
parse_action-print (suc (suc (suc f))) (alert severity msg) s h = refl
parse_action-print (suc (suc (suc f))) (log message) s h = refl
parse_action-print (suc (suc (suc f))) drop_packet s h = refl

size-print_action : (a : Action) (s : State) → 3 + size s ≤ size (print_action a s)
unfolding print_action
size-print_action (alert severity msg) s = omega arith
size-print_action (log message) s = omega arith
size-print_action drop_packet s = omega arith

size-print_actions : (as_ : List Action) (s : State) → size s ≤ size (print_actions as_ s)
unfolding print_actions
size-print_actions [] s = omega arith
size-print_actions (a ∷ as_) s =
    omega (arith, size-print_action a (print_actions as_ s), size-print_actions as_ s)

starts_action :
    (a : Action) (s : State)
    → (is_r_brace (current (print_action a s)) || is_eof (current (print_action a s))) ≡ false
unfolding print_action is_r_brace is_eof
starts_action (alert severity msg) s = refl
starts_action (log message) s = refl
starts_action drop_packet s = refl

parse_actions-print :
    (f : ℕ) (as_ : List Action) (s : State)
    → (is_r_brace (current s) || is_eof (current s)) ≡ true
    → size (print_actions as_ s) < f
    → parse_actions f (print_actions as_ s) ≡ ok (as_, s)
unfolding print_actions parse_actions
parse_actions-print zero as_ s end h = absurd (omega (arith, h))
parse_actions-print (suc f) [] s end h = rw (end, parse_actions) refl
parse_actions-print (suc f) (a ∷ as_) s end h =
    let more = print_actions as_ s in
    rw
      (
        starts_action a more,
        parse_actions,
        parse_action-print f a more (omega (arith, size-print_action a more, h)),
        parse_actions-print f as_ s end (omega (arith, size-print_action a more, h)),
      )
      refl

event_of-name : (e : EventType) → event_of (identifier (event_name e)) ≡ ok e
unfolding event_of event_from_str event_name
event_of-name network = refl
event_of-name dns = refl
event_of-name http = refl
event_of-name tls = refl
event_of-name process = refl
event_of-name file = refl
event_of-name any = refl

parse_rule-print :
    (f : ℕ) (r : Rule) (s : State)
    → IsWritten r
    → 2 * size (print_rule r s) ≤ f
    → parse_rule f (print_rule r s) ≡ ok (r, s)
unfolding parse_rule print_rule expect_keyword expect_l_brace expect_r_brace is_keyword is_l_brace
    is_r_brace is_eof rule_name
parse_rule-print f r s (on, chain) h =
    let u = actions_part r s in
    rw
      (
        event_of-name r.event_type,
        parse_conditions-print f r.condition (put r_brace u) chain refl (omega (arith, h)),
        parse_actions-print f r.actions (closing s) refl
            (omega (arith, size-print_condition r.condition (put r_brace u), h)),
      )
      (ap
        (λ b. ok (
          record {
            name = r.name;
            event_type = r.event_type;
            condition = r.condition;
            actions = r.actions;
            enabled = b;
          },
          s,
        ))
        (sym on))

size-print_rule : (r : Rule) (s : State) → size s < size (print_rule r s)
unfolding print_rule
size-print_rule r s = omega (
  arith,
  size-print_condition r.condition (put r_brace (actions_part r s)),
  size-print_actions r.actions (closing s),
)

parse_all_step :
    (f : ℕ) (u s t : State) (r : Rule) (rs : List Rule)
    → is_eof (current u) ≡ false
    → is_keyword "rule" (current u) ≡ true
    → parse_rule f u ≡ ok (r, s)
    → parse_all f s ≡ ok (rs, t)
    → parse_all (suc f) u ≡ ok (r ∷ rs, t)
unfolding parse_all
parse_all_step f u s t r rs more rule e e' = rw (more, parse_all, rule, e, e') refl

parse_all-print :
    (f : ℕ) (rs : List Rule)
    → All IsWritten rs
    → 2 * size (print_rules rs) < f
    → parse_all f (print_rules rs) ≡ ok (rs, (eof, []))
unfolding print_rules
parse_all-print zero rs written h = absurd (omega (arith, h))
parse_all-print (suc f) [] written h = unfold parse_all is_eof in refl
parse_all-print (suc f) (r ∷ rs) (w, ws) h =
    let s = print_rules rs in
    parse_all_step f (print_rule r s) s (eof, []) r rs (unfold print_rule is_eof in refl)
      (unfold print_rule is_keyword in refl) (parse_rule-print f r s w (omega (arith, h)))
      (parse_all-print f rs ws (omega (arith, h, size-print_rule r s)))

-- The rules that have a text, as tokens and with the last `Eof`, are parsed to the same rules: names,
-- events, conditions, actions and their order. A condition has a text when it is a chain of single
-- conditions joined from the left, with operators that have a spelling.
pub parse_tokens-print :
    (rs : List Rule)
    → All IsWritten rs
    → parse_tokens ((print_rules rs).0 ∷ (print_rules rs).1) ≡ ok rs
unfolding parse_tokens
parse_tokens-print rs written =
    rw (parse_all-print (enough (print_rules rs).1) rs written (omega arith)) refl
