-- ===== src/Script/Parser/Outcomes.antt =====
-- parser.rs: the state of the parser and the outcomes of its methods.
use thor_firewall_smart.Prelude.{String, List, [], ◌∷◌}
use thor_firewall_smart.Script.Syntax.{ScriptToken}

-- What the messages of `bail!` are formatted from.
pub data ParseError : Type 0 where
  expected_keyword : (kw : String) (got : ScriptToken) → ParseError
  expected_l_brace expected_r_brace expected_name expected_event : ScriptToken → ParseError
  unknown_event : String → ParseError
  expected_regex expected_match expected_field expected_operator : ScriptToken → ParseError
  expected_value expected_action : ScriptToken → ParseError

pub data Outcome {ℓ} (A : Type ℓ) : Type ℓ where
  ok : A → Outcome A
  failed : ParseError → Outcome A
  out_of_fuel : Outcome A

abbrev pub and_then {ℓ κ} : {A : Type ℓ} {B : Type κ} → Outcome A → (A → Outcome B) → Outcome B
and_then (ok a) f = f a
and_then (failed e) f = failed e
and_then out_of_fuel f = out_of_fuel

abbrev pub State : Type 0
State = ScriptToken × List ScriptToken

abbrev pub Parser {ℓ} : Type ℓ → Type ℓ
Parser A = State → Outcome (A × State)

abbrev pub pure {ℓ} : {A : Type ℓ} → A → Parser A
pure a s = ok (a, s)

infixl 1 ◌>>=◌ ◌>>◌
abbrev pub ◌>>=◌ {ℓ κ} : {A : Type ℓ} {B : Type κ} → Parser A → (A → Parser B) → Parser B
◌>>=◌ p f s = and_then (p s) λ (a, t). f a t

abbrev pub ◌>>◌ {ℓ κ} : {A : Type ℓ} {B : Type κ} → Parser A → Parser B → Parser B
p >> q = p >>= λ _. q

-- `peek`
abbrev pub current : State → ScriptToken
current (t, ts) = t

-- The position after `advance`, which returns the token before it.
abbrev pub advance_state : State → State
advance_state (t, []) = (t, [])
advance_state (t, u ∷ ts) = (u, ts)

abbrev pub advance : Parser ScriptToken
advance s = ok (current s, advance_state s)
