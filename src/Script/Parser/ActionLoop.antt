-- ===== src/Script/Parser/ActionLoop.antt =====
-- parser.rs: the actions leave no more tokens, with the fuel they have.
use Prim.Native.String.{String}
use thor_firewall_smart.Prelude.{
  ℕ, zero, suc, ◌≡◌, ◌≤◌, ◌<◌, true, ◌||◌, ◌∷◌, arith, Bool-cases, inl, inr, string_eq,
}
use thor_firewall_smart.Script.Syntax.{alert, log, drop_packet}
use thor_firewall_smart.Script.Parser.Outcomes.{
  Parser, State, pure, ◌>>=◌, ◌>>◌, current, advance_state, advance,
}
use thor_firewall_smart.Script.Parser.Within.{
  size, Fine, Within, advance-Fine, weaken_lem, bind_lem, skip_if-Within, advance-Within,
}
use thor_firewall_smart.Script.Parser.Loops.{keyword_past, parse_args-Within}
use thor_firewall_smart.Script.Parser.{
  parse_args, parse_alert, parse_log, parse_drop, parse_action, parse_actions, message_of,
}
use thor_firewall_smart.Script.Matches.{
  is_eof, is_keyword, is_r_brace, is_l_paren, is_r_paren, skip_if,
}

parse_alert-Within :
    (f : ℕ) (s : State) → Fine s → size s < f → Within (suc (size s)) (parse_alert f s)
unfolding parse_alert
parse_alert-Within f s fine h =
    bind_lem (skip_if is_l_paren)
      (λ _.
        parse_args f ("medium", "") >>= λ args. skip_if is_r_paren >> pure (alert args.0 args.1))
      s (suc (size s)) (suc (size s))
      (skip_if-Within is_l_paren s (suc (size s)) fine (omega arith))
      λ _ u fine_u lt.
        bind_lem (parse_args f ("medium", ""))
          (λ args. skip_if is_r_paren >> pure (alert args.0 args.1)) u (suc (size s)) (suc (size s))
          (weaken_lem (parse_args f ("medium", "") u) (suc (size u)) (suc (size s))
            (parse_args-Within f ("medium", "") u fine_u (omega (arith, lt, h))) lt)
          λ args w fine_w lt_w.
            bind_lem (skip_if is_r_paren) (λ _. pure (alert args.0 args.1)) w (suc (size s))
              (suc (size s)) (skip_if-Within is_r_paren w (suc (size s)) fine_w lt_w)
              λ _ x fine_x lt_x. (fine_x, lt_x)

parse_log-Within : (s : State) → Fine s → Within (suc (size s)) (parse_log s)
unfolding parse_log
parse_log-Within s fine =
    let n : ℕ = suc (size s) in
    bind_lem (skip_if is_l_paren)
      (λ _. advance >>= λ t. skip_if is_r_paren >> pure (log (message_of t))) s n n
      (skip_if-Within is_l_paren s n fine (omega arith))
      λ _ u fine_u lt.
        bind_lem advance (λ t. skip_if is_r_paren >> pure (log (message_of t))) u n n
          (advance-Within u n fine_u lt)
          λ t w fine_w lt_w.
            bind_lem (skip_if is_r_paren) (λ _. pure (log (message_of t))) w n n
              (skip_if-Within is_r_paren w n fine_w lt_w) λ _ x fine_x lt_x. (fine_x, lt_x)

parse_drop-Within : (s : State) → Fine s → Within (suc (size s)) (parse_drop s)
unfolding parse_drop
parse_drop-Within s fine =
    let n : ℕ = suc (size s) in
    bind_lem (skip_if is_l_paren) (λ _. skip_if is_r_paren >> pure drop_packet) s n n
      (skip_if-Within is_l_paren s n fine (omega arith))
      λ _ u fine_u lt.
        bind_lem (skip_if is_r_paren) (λ _. pure drop_packet) u n n
          (skip_if-Within is_r_paren u n fine_u lt) λ _ x fine_x lt_x. (fine_x, lt_x)

-- A method behind a keyword leaves fewer tokens than there were at the keyword.
behind_keyword {ℓ} :
    {A : Type ℓ} (kw : String) (p : Parser A) (s : State)
    → Fine s
    → is_keyword kw (current s) ≡ true
    → Within (suc (size (advance_state s))) (p (advance_state s))
    → Within (size s) (p (advance_state s))
behind_keyword kw p s fine e h =
    weaken_lem (p (advance_state s)) (suc (size (advance_state s))) (size s) h
      (keyword_past kw s fine e)

parse_action-Within : (f : ℕ) (s : State) → Fine s → size s ≤ f → Within (size s) (parse_action f s)
unfolding parse_action
parse_action-Within f s fine h = elim (Bool-cases (is_keyword "alert" (current s))) [
  | inl e ↦
      rw (e, Within)
        (behind_keyword "alert" (parse_alert f) s fine e (
          parse_alert-Within f (advance_state s) (advance-Fine s fine)
            (omega (arith, keyword_past "alert" s fine e, h))))
  | inr n ↦
      rw (n, Within)
        (elim (Bool-cases (is_keyword "log" (current s))) [
          | inl e ↦
              rw (e, Within)
                (behind_keyword "log" parse_log s fine e
                  (parse_log-Within (advance_state s) (advance-Fine s fine)))
          | inr m ↦
              rw (m, Within)
                (elim (Bool-cases (is_keyword "drop" (current s))) [
                  | inl e ↦
                      rw (e, Within)
                        (behind_keyword "drop" parse_drop s fine e
                          (parse_drop-Within (advance_state s) (advance-Fine s fine)))
                  | inr k ↦ rw (k, Within) tt
                ])
        ])
]

pub parse_actions-Within :
    (f : ℕ) (s : State) → Fine s → size s < f → Within (suc (size s)) (parse_actions f s)
unfolding parse_actions
parse_actions-Within zero s fine h = absurd (omega (arith, h))
parse_actions-Within (suc f) s fine h =
    elim (Bool-cases (is_r_brace (current s) || is_eof (current s))) [
      | inl e ↦ rw (e, Within) (fine, omega arith)
      | inr e ↦
          rw (e, Within)
            (bind_lem (parse_action f) (λ a. parse_actions f >>= λ as_. pure (a ∷ as_)) s (size s)
              (suc (size s)) (parse_action-Within f s fine (omega (arith, h)))
              λ a u fine_u lt.
                bind_lem (parse_actions f) (λ as_. pure (a ∷ as_)) u (suc (size u)) (suc (size s))
                  (parse_actions-Within f u fine_u (omega (arith, h, lt)))
                  λ as_ x fine_x lt_x. (fine_x, omega (arith, lt, lt_x)))
    ]
