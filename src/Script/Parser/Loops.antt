-- ===== src/Script/Parser/Loops.antt =====
-- parser.rs: the loops over conditions and arguments leave no more tokens, with the fuel they have.
use Prim.Native.String.{String}
use thor_firewall_smart.Prelude.{
  ℕ, zero, suc, ◌≡◌, ◌⊎◌, ◌≤◌, ◌<◌, ◌+◌, ◌*◌, refl, true, ◌||◌, arith, Bool-cases, inl, inr,
  string_eq,
}
use thor_firewall_smart.Script.Syntax.{ScriptToken, Condition, not_cond, and_cond, or_cond}
use thor_firewall_smart.Script.Parser.Outcomes.{
  Outcome, ParseError, State, ok, failed, out_of_fuel, pure, ◌>>=◌, ◌>>◌, current, advance_state,
  advance,
}
use thor_firewall_smart.Script.Parser.Within.{
  size, Fine, Within, advance-Fine, size-advance, size-advance_on, size-advance_past, weaken_lem,
  bind_lem, skip_if-Within, advance-Within,
}
use thor_firewall_smart.Script.Parser.Terms.{goes_on, parse_payload-Within, parse_compare-Within}
use thor_firewall_smart.Script.Parser.{
  parse_payload, parse_single_condition, parse_more, parse_conditions, key_of, parse_args, text_of,
  with_arg,
}
use thor_firewall_smart.Script.Matches.{is_eof, is_keyword, is_r_paren, is_colon, is_comma, skip_if}

pub keyword_past :
    (kw : String) (s : State)
    → Fine s
    → is_keyword kw (current s) ≡ true
    → size (advance_state s) < size s
keyword_past kw s fine e = size-advance_on (is_keyword kw) s (unfold is_keyword in refl) fine e

Outcome-cases {ℓ} :
    {A : Type ℓ} (r : Outcome A)
    → ((a : A) × (r ≡ ok a)) ⊎ (((e : ParseError) × (r ≡ failed e)) ⊎ (r ≡ out_of_fuel))
Outcome-cases (ok a) = inl (a, refl)
Outcome-cases (failed e) = inr (inl (e, refl))
Outcome-cases out_of_fuel = inr (inr refl)

parse_single_condition-Within :
    (f : ℕ) (s : State) → Fine s → 2 * size s + 2 ≤ f → Within (size s) (parse_single_condition f s)
unfolding parse_single_condition
parse_single_condition-Within zero s fine h = absurd (omega (arith, h))
parse_single_condition-Within (suc f) s fine h = elim (Bool-cases (is_keyword "not" (current s))) [
  | inl e ↦
      let less = keyword_past "not" s fine e in
      rw (e, Within)
        (bind_lem (parse_single_condition f) (λ c. pure (not_cond c)) (advance_state s)
          (size (advance_state s)) (size s)
          (parse_single_condition-Within f (advance_state s) (advance-Fine s fine)
            (omega (arith, h, less)))
          λ c u fine_u lt. (fine_u, omega (arith, lt, less)))
  | inr n ↦
      rw (n, Within)
        (elim (Bool-cases (is_keyword "payload" (current s))) [
          | inl e ↦
              rw (e, Within)
                (weaken_lem (parse_payload (advance_state s)) (size (advance_state s)) (size s)
                  (parse_payload-Within (advance_state s) (advance-Fine s fine)) (size-advance s))
          | inr m ↦ rw (m, Within) (parse_compare-Within (suc f) s fine (omega (arith, h)))
        ])
]

-- Another condition behind `and` or `or`, and the loop again.
next_condition-Within :
    (f : ℕ) (join : Condition → Condition) (s u : State)
    → ((c : Condition) (w : State)
        → Fine w
        → 2 * size w + 2 ≤ f
        → Within (suc (size w)) (parse_more f c w))
    → Fine u
    → size u < size s
    → 2 * size s + 2 ≤ suc f
    → Within (suc (size s)) ((parse_single_condition f >>= λ d. parse_more f (join d)) u)
next_condition-Within f join s u more fine lt h =
    bind_lem (parse_single_condition f) (λ d. parse_more f (join d)) u (size u) (suc (size s))
      (parse_single_condition-Within f u fine (omega (arith, lt, h)))
      λ d w fine_w lt_w.
        weaken_lem (parse_more f (join d) w) (suc (size w)) (suc (size s))
          (more (join d) w fine_w (omega (arith, lt, lt_w, h))) (omega (arith, lt, lt_w))

parse_more-Within :
    (f : ℕ) (c : Condition) (s : State)
    → Fine s
    → 2 * size s + 2 ≤ f
    → Within (suc (size s)) (parse_more f c s)
unfolding parse_more
parse_more-Within zero c s fine h = absurd (omega (arith, h))
parse_more-Within (suc f) c s fine h = elim (Bool-cases (is_keyword "and" (current s))) [
  | inl e ↦
      rw (e, Within)
        (next_condition-Within f (and_cond c) s (advance_state s) (parse_more-Within f)
          (advance-Fine s fine) (keyword_past "and" s fine e) h)
  | inr n ↦
      rw (n, Within)
        (elim (Bool-cases (is_keyword "or" (current s))) [
          | inl e ↦
              rw (e, Within)
                (next_condition-Within f (or_cond c) s (advance_state s) (parse_more-Within f)
                  (advance-Fine s fine) (keyword_past "or" s fine e) h)
          | inr m ↦ rw (m, Within) (fine, omega arith)
        ])
]

pub parse_conditions-Within :
    (f : ℕ) (s : State) → Fine s → 2 * size s + 2 ≤ f → Within (size s) (parse_conditions f s)
unfolding parse_conditions
parse_conditions-Within f s fine h =
    bind_lem (parse_single_condition f) (λ c. parse_more f c) s (size s) (size s)
      (parse_single_condition-Within f s fine h)
      λ c u fine_u lt.
        weaken_lem (parse_more f c u) (suc (size u)) (size s)
          (parse_more-Within f c u fine_u (omega (arith, h, lt))) lt

pub parse_args-Within :
    (f : ℕ) (args : String × String) (s : State)
    → Fine s
    → size s < f
    → Within (suc (size s)) (parse_args f args s)
unfolding parse_args
parse_args-Within zero args s fine h = absurd (omega (arith, h))
parse_args-Within (suc f) args s fine h =
    elim (Bool-cases (is_r_paren (current s) || is_eof (current s))) [
      | inl e ↦ rw (e, Within) (fine, omega arith)
      | inr n ↦
          let less = size-advance_past s fine (goes_on is_r_paren (current s) n) in
          let stop : Within (suc (size s)) (ok (args, advance_state s)) =
            (advance-Fine s fine, omega (arith, less)) in
          rw (n, Within)
            (elim (Outcome-cases (key_of (current s))) [
              | inl (key, e) ↦
                  let val = λ (v : ScriptToken). with_arg key (text_of v) args in
                  rw (e, Within)
                    (bind_lem (skip_if is_colon)
                      (λ _. advance >>= λ v. skip_if is_comma >> parse_args f (val v))
                      (advance_state s) (size s) (suc (size s))
                      (skip_if-Within is_colon (advance_state s) (size s) (advance-Fine s fine)
                        less)
                      λ _ u fine_u lt.
                        bind_lem advance (λ v. skip_if is_comma >> parse_args f (val v)) u (size s)
                          (suc (size s)) (advance-Within u (size s) fine_u lt)
                          λ v w fine_w lt_w.
                            bind_lem (skip_if is_comma) (λ _. parse_args f (val v)) w (size s)
                              (suc (size s)) (skip_if-Within is_comma w (size s) fine_w lt_w)
                              λ _ x fine_x lt_x.
                                weaken_lem (parse_args f (val v) x) (suc (size x)) (suc (size s))
                                  (parse_args-Within f (val v) x fine_x (omega (arith, lt_x, h)))
                                  (omega (arith, lt_x)))
              | inr (inl (x, e)) ↦ rw (e, Within) stop
              | inr (inr e) ↦ rw (e, Within) stop
            ])
    ]
