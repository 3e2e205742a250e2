-- ===== src/Ids/RuleOptions/Values.antt =====
-- rule_parser.rs: the values that `parse_options` reads to their end.
use Prim.Native.Char.{Char, code}
use Prim.Native.String.{String, ◌++◌}
use Prim.Native.String.append
use thor_firewall_smart.Prelude.{
  ℕ, suc, ◌≡◌, refl, ap, Bool, true, false, not, ◌&&◌, Option, none, some, arith, ◌==◌, nat_eq,
  string_eq, ◌∙◌,
}
use thor_firewall_smart.Prelude.Scan.{push_front}
use text.Mathlib.TextLemmas.{append_assoc, append-nil}
use thor_firewall_smart.Prelude.Text.{has_char}
use thor_firewall_smart.Ids.RuleOptions.{is_quote, read_char, read_value}

-- Outside of quotes: no quote, no parenthesis, and no semicolon unless within parentheses.
abbrev pub is_plain : ℕ → ℕ → Bool
is_plain depth c =
    not (is_quote c) && not (c == b'(') && not (c == b')') && not (c == b';' && depth == 0)

-- A text with its quotes closed and its parentheses matched, at a depth of parentheses.
pub data Balanced : ℕ → String → Type 0 where
  done : {d : ℕ} → Balanced d ""
  plain :
      {d : ℕ} (c : Char) {s : String}
      → is_plain d (code c) ≡ true
      → Balanced d s
      → Balanced d (String.◌∷◌ c s)
  quoted :
      {d : ℕ} (q : Char) (inner : String) {s : String}
      → is_quote (code q) ≡ true
      → has_char q inner ≡ false
      → Balanced d s
      → Balanced d (String.◌∷◌ q (inner ++ String.◌∷◌ q s))
  group :
      {d : ℕ} (t : String) {s : String}
      → Balanced (suc d) t
      → Balanced d s
      → Balanced d (String.◌∷◌ "(" (t ++ String.◌∷◌ ")" s))

-- A text in front of what is taken.
abbrev in_front : String → String × String → String × String
in_front t r = (t ++ r.0, r.1)

read_value-step :
    (d : ℕ) (quote : Option ℕ) (c : Char) (s : String) (e : ℕ) (next : Option ℕ)
    → read_char d quote (code c) ≡ some (e, next)
    → read_value d quote (String.◌∷◌ c s) ≡ push_front c (read_value e next s)
unfolding read_value
read_value-step d quote c s e next h = rw (read_value, h) refl

read_quoted :
    (d : ℕ) (q : Char) (inner s : String)
    → has_char q inner ≡ false
    → read_value d (some (code q)) (inner ++ String.◌∷◌ q s)
      ≡ in_front inner (push_front q (read_value d none s))
unfolding has_char
read_quoted d q String.[] s h =
    let closes : read_char d (some (code q)) (code q) ≡ some (d, none) = ground arith in
    rw (append.nil, append.nil) (read_value-step d (some (code q)) q s d none closes)
read_quoted d q (String.◌∷◌ c inner) s h =
    let goes_on : read_char d (some (code q)) (code c) ≡ some (d, some (code q)) =
      ground (arith, h) in
    let more = read_quoted d q inner s (ground (arith, h)) in
    rw (append.cons, append.cons)
      (read_value-step d (some (code q)) c (inner ++ String.◌∷◌ q s) d (some (code q)) goes_on
        ∙ ap (push_front c) more)

-- A balanced text is all added to the value.
read_value-Balanced :
    (d : ℕ) (v rest : String)
    → Balanced d v
    → read_value d none (v ++ rest) ≡ in_front v (read_value d none rest)
read_value-Balanced d _ rest done = rw (append.nil, append.nil) refl
read_value-Balanced d _ rest (plain c {s} h b) =
    let goes_on : read_char d none (code c) ≡ some (d, none) = ground (arith, h) in
    rw (append.cons, append.cons)
      (read_value-step d none c (s ++ rest) d none goes_on
        ∙ ap (push_front c) (read_value-Balanced d s rest b))
read_value-Balanced d _ rest (quoted q inner {s} h k b) =
    let opens : read_char d none (code q) ≡ some (d, some (code q)) = ground (arith, h) in
    let after = read_value d none rest in
    rw
      (
        append.cons,
        append.cons,
        append_assoc inner (String.◌∷◌ q s) rest,
        append_assoc inner (String.◌∷◌ q s) after.0,
        append.cons,
        append.cons,
      )
      (read_value-step d none q (inner ++ String.◌∷◌ q (s ++ rest)) d (some (code q)) opens
        ∙ ap (push_front q) (
            read_quoted d q inner (s ++ rest) k
            ∙ ap (λ r. in_front inner (push_front q r)) (read_value-Balanced d s rest b)))
read_value-Balanced d _ rest (group t {s} a b) =
    let after = read_value d none rest in
    let closes : read_char (suc d) none (code ")") ≡ some (d, none) = ground arith in
    let closed = read_value-step (suc d) none ")" (s ++ rest) d none closes in
    rw
      (
        append.cons,
        append.cons,
        append_assoc t (String.◌∷◌ ")" s) rest,
        append_assoc t (String.◌∷◌ ")" s) after.0,
        append.cons,
        append.cons,
      )
      (read_value-step d none "(" (t ++ String.◌∷◌ ")" (s ++ rest)) (suc d) none refl
        ∙ ap (push_front "(") (
            read_value-Balanced (suc d) t (String.◌∷◌ ")" (s ++ rest)) a
            ∙ ap (in_front t) (closed ∙ ap (push_front ")") (read_value-Balanced d s rest b))))

-- A value ends at its semicolon.
pub read_value-closed :
    (v rest : String)
    → Balanced 0 v
    → read_value 0 none (v ++ String.◌∷◌ ";" rest) ≡ (v, String.◌∷◌ ";" rest)
unfolding read_value
read_value-closed v rest b =
    read_value-Balanced 0 v (String.◌∷◌ ";" rest) b
    ∙ ap (λ t. (t, String.◌∷◌ ";" rest)) (append-nil v)
