-- ===== src/Ids/Rules/Outcomes.antt =====
-- rule_parser.rs: how `parse_rule` ends.
use Prim.Native.String.{String, ◌++◌}
use Prim.Native.String.append
use thor_firewall_smart.Prelude.{
  ◌≡◌, ◌≢◌, ◌+◌, refl, Bool, true, false, some, List, [], ◌∷◌, arith, ◌==◌, string_eq, ◌&&◌, not,
  subst, nat_eq, ltb, Bool-cases, inl, inr,
}
use thor_firewall_smart.Prelude.Text.{has_char, starts_with}
use thor_firewall_smart.Prelude.Scan.{cons-nonempty, trim, count}
use thor_firewall_smart.Ids.RuleText.{rfind}
use thor_firewall_smart.Ids.RuleText.Finds.{
  find-first, rfind-none, rfind-some, rfind-behind, rfind-front,
}
use thor_firewall_smart.Ids.RuleOptions.{RuleOption, parse_options}
use thor_firewall_smart.Ids.RuleOptions.Total.{parse_options_total}
use thor_firewall_smart.Ids.Rules.{
  Outcome, parsed, refused, panicked, out_of_fuel, ◌>>=◌, parse_rule, parse_line, build_rule,
  parse_action,
}

-- Neither a panic nor the end of the fuel.
abbrev pub IsSettled {ℓ} : {A : Type ℓ} → Outcome A → Type 0
IsSettled (parsed a) = Unit
IsSettled (refused e) = Unit
IsSettled panicked = ⊥
IsSettled out_of_fuel = ⊥

parse_action-IsSettled : (s : String) → IsSettled (parse_action s)
unfolding parse_action
parse_action-IsSettled s = ground arith

bind-IsSettled {ℓ κ} :
    {A : Type ℓ} {B : Type κ} (o : Outcome A) (k : A → Outcome B)
    → IsSettled o
    → ((a : A) → IsSettled (k a))
    → IsSettled (o >>= k)
bind-IsSettled (parsed a) k h all = all a
bind-IsSettled (refused e) k h all = tt
bind-IsSettled panicked k h all = h
bind-IsSettled out_of_fuel k h all = h

build_rule-IsSettled :
    (parts : List String) (os : List RuleOption) → IsSettled (build_rule parts (some os))
unfolding build_rule
build_rule-IsSettled [] os = tt
build_rule-IsSettled (a ∷ []) os = tt
build_rule-IsSettled (a ∷ p ∷ []) os = tt
build_rule-IsSettled (a ∷ p ∷ sa ∷ []) os = tt
build_rule-IsSettled (a ∷ p ∷ sa ∷ sp ∷ []) os = tt
build_rule-IsSettled (a ∷ p ∷ sa ∷ sp ∷ d ∷ []) os = tt
build_rule-IsSettled (a ∷ p ∷ sa ∷ sp ∷ d ∷ da ∷ []) os = tt
build_rule-IsSettled (a ∷ p ∷ sa ∷ sp ∷ d ∷ da ∷ dp ∷ more) os =
    bind-IsSettled (parse_action a) _ (parse_action-IsSettled a) (λ kind. tt)

abbrev pub panics {ℓ} : {A : Type ℓ} → Outcome A → Bool
panics panicked = true
panics _ = false

abbrev pub EndsBy {ℓ} : {A : Type ℓ} → Bool → Outcome A → Type ℓ
EndsBy b o = (panics o ≡ b) × (o ≢ out_of_fuel)

settled-EndsBy {ℓ} : {A : Type ℓ} (o : Outcome A) → IsSettled o → EndsBy false o
settled-EndsBy (parsed a) h = (refl, ground arith)
settled-EndsBy (refused e) h = (refl, ground arith)
settled-EndsBy panicked h = absurd h
settled-EndsBy out_of_fuel h = absurd h

panicked-EndsBy {ℓ} : {A : Type ℓ} → EndsBy {A = A} true panicked
panicked-EndsBy = (refl, ground arith)

built-EndsBy :
    (parts : List String) (s : String) → EndsBy false (build_rule parts (parse_options s))
built-EndsBy parts s =
    let (os, e) = parse_options_total s in
    rw e (settled-EndsBy (build_rule parts (some os)) (build_rule-IsSettled parts os))

parse_line-EndsBy :
    (pre post : String)
    → has_char "(" pre ≡ false
    → EndsBy (has_char ")" pre && not (has_char ")" post)) (
        parse_line
          (pre ++ String.◌∷◌ "(" post)
          (some (count pre))
          (rfind b')' (pre ++ String.◌∷◌ "(" post)))
unfolding parse_line
parse_line-EndsBy pre post h = elim (Bool-cases (has_char ")" post)) [
  | inl e ↦
      let (n, found, lt) = rfind-behind ")" "(" pre post e in
      let behind : ltb n (count pre + 1) ≡ false = ground (arith, lt) in
      let quiet : (has_char ")" pre && not (has_char ")" post)) ≡ false = ground (arith, e) in
      rw (quiet, found, behind) (built-EndsBy _ _)
  | inr e ↦ elim (Bool-cases (has_char ")" pre)) [
    | inl i ↦
        let (n, found, lt) = rfind-some ")" pre i in
        let before : ltb n (count pre + 1) ≡ true = ground (arith, lt) in
        rw (e, i, rfind-front ")" "(" pre post refl e, found, before) panicked-EndsBy
    | inr i ↦
        rw (e, i, rfind-front ")" "(" pre post refl e, rfind-none ")" pre i) (refl, ground arith)
  ]
]

nonempty : (pre post : String) → ((pre ++ String.◌∷◌ "(" post) == "") ≡ false
nonempty String.[] post = rw append.nil (cons-nonempty "(" post)
nonempty (String.◌∷◌ c pre) post = rw append.cons (cons-nonempty c (pre ++ String.◌∷◌ "(" post))

-- On a line that is no comment, and whose first `(` stands behind `pre`, `parse_rule` panics exactly
-- when `)` occurs in `pre` and not behind it. It never uses up its rounds.
pub parse_rule-EndsBy :
    (text pre post : String)
    → trim text ≡ pre ++ String.◌∷◌ "(" post
    → has_char "(" pre ≡ false
    → starts_with (trim text) "#" ≡ false
    → EndsBy (has_char ")" pre && not (has_char ")" post)) (parse_rule text)
unfolding parse_rule
parse_rule-EndsBy text pre post e h k =
    let line = pre ++ String.◌∷◌ "(" post in
    let plain : starts_with line "#" ≡ false = subst (λ s. starts_with s "#" ≡ false) e k in
    rw (e, nonempty pre post, plain, find-first "(" pre post h) (parse_line-EndsBy pre post h)
