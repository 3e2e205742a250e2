-- ===== src/Script/Parser/Within.antt =====
-- parser.rs: what a method of the parser leaves of the tokens, when they end with `Eof`.
use thor_firewall_smart.Prelude.{
  ℕ, ◌≡◌, ◌≤◌, ◌<◌, refl, sym, ap, ◌∙◌, Bool, true, false, [], ◌∷◌, length, arith, Bool-cases, inl,
  inr, string_eq,
}
use thor_firewall_smart.Script.Syntax.{ScriptToken, eof}
use thor_firewall_smart.Script.Lexer.Total.{EndsEof}
use thor_firewall_smart.Script.Parser.Outcomes.{
  Outcome, ParseError, Parser, State, and_then, ok, failed, out_of_fuel, ◌>>=◌, current,
  advance_state, advance,
}
use thor_firewall_smart.Script.Matches.{is_eof, skip_if, require, take}

-- The number of tokens behind the position.
abbrev pub size : State → ℕ
size (t, ts) = length ts

abbrev pub Fine : State → Type 0
Fine (t, ts) = EndsEof (t ∷ ts)

-- The fuel was enough, and fewer than so many tokens are left.
abbrev pub Within {ℓ} : {A : Type ℓ} → ℕ → Outcome (A × State) → Type 0
Within n (ok (a, s)) = Fine s × (size s < n)
Within n (failed e) = Unit
Within n out_of_fuel = ⊥

abbrev pub Answers {ℓ} : {A : Type ℓ} → Outcome A → Type 0
Answers out_of_fuel = ⊥
Answers _ = Unit

pub advance-Fine : (s : State) → Fine s → Fine (advance_state s)
advance-Fine (t, []) h = h
advance-Fine (t, u ∷ ts) h = h

pub size-advance : (s : State) → size (advance_state s) ≤ size s
size-advance (t, []) = omega arith
size-advance (t, u ∷ ts) = omega arith

-- A token that a test tells from `Eof` is not the last.
pub size-advance_on :
    (p : ScriptToken → Bool) (s : State)
    → p eof ≡ false
    → Fine s
    → p (current s) ≡ true
    → size (advance_state s) < size s
size-advance_on p (t, []) e h yes_p = absurd (Bool-clash (ap p h ∙ e) yes_p)
  where
    Bool-clash : {b : Bool} → b ≡ false → b ≡ true → ⊥
    Bool-clash f t = cc
size-advance_on p (t, u ∷ ts) e h yes_p = omega arith

pub size-advance_past :
    (s : State) → Fine s → is_eof (current s) ≡ false → size (advance_state s) < size s
unfolding is_eof
size-advance_past (t, []) h no_eof = absurd (eof_clash t h no_eof)
  where
    eof_clash : (t : ScriptToken) → t ≡ eof → is_eof t ≡ false → ⊥
    eof_clash t e n = cc
size-advance_past (t, u ∷ ts) h no_eof = omega arith

pub weaken_lem {ℓ} :
    {A : Type ℓ} (r : Outcome (A × State)) (m n : ℕ) → Within m r → m ≤ n → Within n r
weaken_lem (ok (a, s)) m n (fine, h) le = (fine, omega arith)
weaken_lem (failed e) m n h le = tt
weaken_lem out_of_fuel m n h le = h

and_then-Within {ℓ κ} :
    {A : Type ℓ} {B : Type κ} (r : Outcome (A × State)) (q : A → Parser B) (m n : ℕ)
    → Within m r
    → ((a : A) (u : State) → Fine u → size u < m → Within n (q a u))
    → Within n (and_then r λ (a, t). q a t)
and_then-Within (ok (a, s)) q m n (fine, h) k = k a s fine h
and_then-Within (failed e) q m n h k = tt
and_then-Within out_of_fuel q m n h k = h

pub bind_lem {ℓ κ} :
    {A : Type ℓ} {B : Type κ} (p : Parser A) (q : A → Parser B) (s : State) (m n : ℕ)
    → Within m (p s)
    → ((a : A) (u : State) → Fine u → size u < m → Within n (q a u))
    → Within n ((p >>= q) s)
bind_lem p q s m n h k = and_then-Within (p s) q m n h k

pub skip_if-Within :
    (p : ScriptToken → Bool) (s : State) (n : ℕ) → Fine s → size s < n → Within n (skip_if p s)
skip_if-Within p s n fine h = elim (Bool-cases (p (current s))) [
  | inl e ↦ rw e (advance-Fine s fine, omega (arith, size-advance s, h))
  | inr e ↦ rw e (fine, h)
]

pub require-Within :
    (p : ScriptToken → Bool) (e : ScriptToken → ParseError) (s : State)
    → p eof ≡ false
    → Fine s
    → Within (size s) (require p e s)
require-Within p e s no_eof fine = elim (Bool-cases (p (current s))) [
  | inl y ↦ rw y (advance-Fine s fine, size-advance_on p s no_eof fine y)
  | inr n ↦ rw n tt
]

pub advance-Within : (s : State) (n : ℕ) → Fine s → size s < n → Within n (advance s)
advance-Within s n fine h = (advance-Fine s fine, omega (arith, size-advance s, h))

-- A match that answers on every token, and with an error on `Eof`.
pub record Reads {A : Type 0} (f : ScriptToken → Outcome A) : Type 0 where
  pub error : ParseError
  pub on_eof : f eof ≡ failed error
  pub always : (t : ScriptToken) → Answers (f t)

take_at-Within :
    {A : Type 0} (f : ScriptToken → Outcome A) (s : State) (r : Outcome A)
    → Reads f
    → Fine s
    → f (current s) ≡ r
    → Answers r
    → Within (size s) (and_then r λ a. ok (a, advance_state s))
take_at-Within f (t, []) (ok a) reads fine e h = absurd (clash (sym e ∙ (ap f fine ∙ reads.on_eof)))
  where
    clash : {A : Type 0} {a : A} {x : ParseError} → Outcome.ok a ≡ failed x → ⊥
    clash p = cc
take_at-Within f (t, u ∷ ts) (ok a) reads fine e h = (fine, omega arith)
take_at-Within f s (failed x) reads fine e h = tt
take_at-Within f s out_of_fuel reads fine e h = h

pub take-Within :
    {A : Type 0} (f : ScriptToken → Outcome A) (s : State)
    → Reads f
    → Fine s
    → Within (size s) (take f s)
take-Within f s reads fine =
    take_at-Within f s (f (current s)) reads fine refl (reads.always (current s))
