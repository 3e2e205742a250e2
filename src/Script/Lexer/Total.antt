-- ===== src/Script/Lexer/Total.antt =====
-- parser.rs: `tokenize` always ends, with a last token that is `Eof`.
use Prim.Native.Char.{Char, code}
use Prim.Native.String.{String}
use thor_firewall_smart.Prelude.{
  ℕ, zero, suc, ◌≡◌, ◌≤◌, ◌<◌, refl, Option, none, some, List, [], ◌∷◌, arith, if-both, ◌&&◌, ◌||◌,
  ◌==◌, nat_eq,
}
use thor_firewall_smart.Prelude.Scan.{count-span, count-rest_of}
use thor_firewall_smart.Script.Syntax.{ScriptToken, eof, op_eq, op_ne, op_lt, op_gt, op_le, op_ge}
use thor_firewall_smart.Script.Lexer.{
  skip_line, read_string, read_regex, lex_slash, lex_number, lex_word, lex_string, lex_other,
  lex_step, lex_punct, lex, count, tokenize, add, is_alphabetic, is_digit, is_word, next_is,
  digit_next, is_space, Step, emit, lex_op,
}

-- The tokens end with `Eof`.
abbrev pub EndsEof : List ScriptToken → Type 0
EndsEof [] = ⊥
EndsEof (t ∷ []) = t ≡ eof
EndsEof (t ∷ u ∷ ts) = EndsEof (u ∷ ts)

-- What is left has at most so many characters.
abbrev Within {ℓ} : {A : Type ℓ} → ℕ → A × String → Type 0
Within n r = count r.1 ≤ n

count-skip_line : (s : String) → count (skip_line s) ≤ count s
unfolding skip_line count
count-skip_line String.[] = omega arith
count-skip_line (String.◌∷◌ c s) = ground (arith, count-skip_line s)

count-read_string : (s : String) → count (read_string s).1 ≤ count s
unfolding read_string count
count-read_string String.[] = omega arith
count-read_string (String.◌∷◌ c String.[]) =
    let P : String × String → Type 0 = Within 1 in
    if-both P (code c == b'"') (omega arith)
      (if-both P (code c == b'\\') (omega arith) (omega arith))
count-read_string (String.◌∷◌ c (String.◌∷◌ d s)) =
    let P : String × String → Type 0 = Within (suc (suc (count s))) in
    if-both P (code c == b'"') (omega arith) (
      if-both P (code c == b'\\') (omega (arith, count-read_string s))
        (omega (arith, count-read_string (String.◌∷◌ d s))))

count-read_regex : (s : String) → count (read_regex s).1 ≤ count s
unfolding read_regex count
count-read_regex String.[] = omega arith
count-read_regex (String.◌∷◌ c String.[]) =
    let P : String × String → Type 0 = Within 1 in
    if-both P (code c == b'/') (omega arith)
      (if-both P (code c == b'\\') (omega arith) (omega arith))
count-read_regex (String.◌∷◌ c (String.◌∷◌ d s)) =
    let P : String × String → Type 0 = Within (suc (suc (count s))) in
    if-both P (code c == b'/') (omega arith) (
      if-both P (code c == b'\\') (omega (arith, count-read_regex s))
        (omega (arith, count-read_regex (String.◌∷◌ d s))))

count-lex_slash : (s : String) → count (lex_slash s).1 ≤ count s
unfolding lex_slash
count-lex_slash s =
    ground (arith, count-skip_line s, count-read_regex s, count-span is_alphabetic (read_regex s).1)

count-lex_op :
    (alone : Option ScriptToken) (t : ScriptToken) (s : String)
    → count (lex_op alone t s).1 ≤ count s
count-lex_op alone t s = if-both (Within (count s)) (next_is b'=' s) (count-rest_of s) (omega arith)

count-lex_other : (c : Char) (s : String) → count (lex_other c s).1 ≤ count s
unfolding lex_other lex_number lex_word
count-lex_other c s =
    let P : Step → Type 0 = Within (count s) in
    if-both P (code c == b'=') (count-lex_op (some op_eq) op_eq s) (
      if-both P (code c == b'!') (count-lex_op none op_ne s) (
        if-both P (code c == b'<') (count-lex_op (some op_lt) op_le s) (
          if-both P (code c == b'>') (count-lex_op (some op_gt) op_ge s) (
            if-both P (is_digit (code c) || code c == b'-' && digit_next s) (count-span is_digit s)
              (if-both P (is_alphabetic (code c) || code c == b'_') (count-span is_word s)
                (omega arith))))))

count-lex_step : (c : Char) (s : String) → count (lex_step c s).1 ≤ count s
unfolding lex_step lex_string
count-lex_step c s =
    let P : Step → Type 0 = Within (count s) in
    if-both P (is_space (code c)) (omega arith) (
      if-both P (code c == b'#') (count-skip_line s) (
        if-both P (code c == b'/') (count-lex_slash s)
          (if-both P (code c == b'"') (count-read_string s) (punct (lex_punct (code c))))))
  where
    punct :
        (o : Option ScriptToken)
        → count (let r : Step = elim o [ some t ↦ emit t s | none ↦ lex_other c s ] in r).1
          ≤ count s
    punct none = count-lex_other c s
    punct (some t) = omega arith

add-EndsEof : (o : Option ScriptToken) (ts : List ScriptToken) → EndsEof ts → EndsEof (add o ts)
add-EndsEof none ts e = e
add-EndsEof (some t) [] e = absurd e
add-EndsEof (some t) (u ∷ ts) e = e

lex_total :
    (f : ℕ) (s : String) → count s < f → (ts : List ScriptToken) × (lex f s ≡ some ts) × EndsEof ts
unfolding lex count
lex_total zero s h = absurd (omega arith)
lex_total (suc f) String.[] h = (eof ∷ [], refl, refl)
lex_total (suc f) (String.◌∷◌ c s) h =
    let (ts, e, ends) = lex_total f (lex_step c s).1 (omega (arith, count-lex_step c s, h)) in
    (add (lex_step c s).0 ts, rw (lex, e) refl, add-EndsEof (lex_step c s).0 ts ends)

-- Every source is tokenized, within one round for each character and one more, and the last token is
-- `Eof`.
pub tokenize_total :
    (src : String) → (ts : List ScriptToken) × (tokenize src ≡ some ts) × EndsEof ts
unfolding tokenize
tokenize_total src = lex_total (suc (count src)) src (omega arith)
