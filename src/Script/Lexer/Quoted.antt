-- ===== src/Script/Lexer/Quoted.antt =====
-- parser.rs: a text that is written as a string literal is read back.
use Prim.Native.Char.{Char, code}
use Prim.Native.String.{String}
use thor_firewall_smart.Prelude.{
  ◌≡◌, refl, ap, ◌∙◌, Bool, true, false, ◌||◌, some, arith, if◌then◌else◌, Bool-cases, inl, inr,
  ◌==◌, nat_eq,
}
use thor_firewall_smart.Script.Syntax.{string_lit}
use thor_firewall_smart.Script.Lexer.{read_string, push_front, lex_string, lex_step, unescape}

abbrev pub is_special : Char → Bool
is_special c = code c == b'"' || code c == b'\\'

-- The text with its quotes and backslashes escaped, the closing quote, and what follows.
unfoldable pub quoted : String → String → String
quoted String.[] rest = String.◌∷◌ "\"" rest
quoted (String.◌∷◌ c s) rest =
    let more = quoted s rest in
    if is_special c then String.◌∷◌ "\\" (String.◌∷◌ c more) else String.◌∷◌ c more

plain_quote : (c : Char) → is_special c ≡ false → (code c == b'"') ≡ false
plain_quote c h = ground (arith, h)

plain_slash : (c : Char) → is_special c ≡ false → (code c == b'\\') ≡ false
plain_slash c h = ground (arith, h)

read_string_plain :
    (c : Char) (t : String)
    → is_special c ≡ false
    → read_string (String.◌∷◌ c t) ≡ push_front c (read_string t)
unfolding read_string
read_string_plain c String.[] h = rw (plain_quote c h, plain_slash c h) refl
read_string_plain c (String.◌∷◌ d t) h = rw (plain_quote c h, plain_slash c h) refl

unescape_special : (c : Char) → is_special c ≡ true → unescape c ≡ c
unescape_special c h =
    let not_n : (code c == b'n') ≡ false = ground (arith, h) in
    let not_t : (code c == b't') ≡ false = ground (arith, h) in rw (not_n, not_t) refl

read_string-quoted : (s rest : String) → read_string (quoted s rest) ≡ (s, rest)
unfolding read_string quoted
read_string-quoted String.[] String.[] = refl
read_string-quoted String.[] (String.◌∷◌ d rest) = refl
read_string-quoted (String.◌∷◌ c s) rest = elim (Bool-cases (is_special c)) [
  | inl e ↦ rw (e, unescape_special c e, read_string-quoted s rest) refl
  | inr n ↦
      rw n (read_string_plain c (quoted s rest) n ∙ ap (push_front c) (read_string-quoted s rest))
]

-- A text that is written with its quotes and backslashes escaped is read back as one string literal,
-- whatever follows it, and the lexer goes on behind it.
pub lex_step-quoted :
    (s rest : String) → lex_step "\"" (quoted s rest) ≡ (some (string_lit s), rest)
unfolding lex_step lex_string
lex_step-quoted s rest = rw (read_string-quoted s rest) refl
