-- ===== src/Script/Lexer.antt =====
-- crates/thor-script/src/parser.rs: `tokenize`. The loop takes fuel; `none` means that it ran out.
pub mod Total
pub mod Quoted
mod Tests
use Prim.Native.Char.{Char, code}
use Prim.Native.String.{String}
use thor_firewall_smart.Prelude.{
  ℕ, zero, suc, ◌-◌, Bool, true, false, not, ◌&&◌, ◌||◌, Option, none, some, List, [], ◌∷◌, ltb,
  leb, ◌==◌, nat_eq, string_eq, if◌then◌else◌, contains,
}
use thor_firewall_smart.Prelude.Int.{ℤ, pos, parse_i64}
unfoldable pub use thor_firewall_smart.Prelude.Scan.{span, push_front, next_is, rest_of, count}
use thor_firewall_smart.Script.Syntax.{
  ScriptToken, keyword, identifier, string_lit, int_lit, regex_lit, l_brace, r_brace, l_paren,
  r_paren, l_bracket, r_bracket, colon, comma, plus, op_eq, op_ne, op_lt, op_gt, op_le, op_ge, eof,
}

abbrev pub keywords : List String
keywords =
    "rule" ∷ "on" ∷ "if" ∷ "then" ∷ "and" ∷ "or" ∷ "not" ∷ "in" ∷ "match" ∷ "alert" ∷ "log" ∷ "drop"
    ∷ "payload" ∷ "true" ∷ "false" ∷ []

abbrev pub is_digit : ℕ → Bool
is_digit c = leb b'0' c && leb c b'9'

abbrev pub is_alphabetic : ℕ → Bool
is_alphabetic c = leb b'a' c && leb c b'z' || leb b'A' c && leb c b'Z'

abbrev pub is_word : ℕ → Bool
is_word c = is_alphabetic c || is_digit c || c == b'_'

abbrev pub is_space : ℕ → Bool
is_space c = c == 32 || c == 9 || c == 13 || c == 10

-- `while chars.next().map(|c| c != '\n').unwrap_or(false) {}`
unfoldable pub skip_line : String → String
skip_line String.[] = ""
skip_line (String.◌∷◌ c s) = let more = skip_line s in if code c == 10 then s else more

-- The character that an escape stands for.
abbrev pub unescape : Char → Char
unescape c = if code c == b'n' then "\n" else if code c == b't' then "\t" else c

-- A string literal behind its opening quote, and what follows its closing one.
unfoldable pub read_string : String → String × String
read_string String.[] = ("", "")
read_string (String.◌∷◌ c String.[]) =
    if code c == b'"' then ("", "") else if code c == b'\\' then ("", "") else (String.◌∷◌ c "", "")
read_string (String.◌∷◌ c (String.◌∷◌ d s)) =
    let escaped = push_front (unescape d) (read_string s) in
    let plain = push_front c (read_string (String.◌∷◌ d s)) in
    if code c == b'"' then ("", String.◌∷◌ d s) else if code c == b'\\' then escaped else plain

-- A pattern behind its opening slash.
unfoldable pub read_regex : String → String × String
read_regex String.[] = ("", "")
read_regex (String.◌∷◌ c String.[]) =
    if code c == b'/' then ("", "") else if code c == b'\\' then ("", "") else (String.◌∷◌ c "", "")
read_regex (String.◌∷◌ c (String.◌∷◌ d s)) =
    let escaped = push_front c (push_front d (read_regex s)) in
    let plain = push_front c (read_regex (String.◌∷◌ d s)) in
    if code c == b'/' then ("", String.◌∷◌ d s) else if code c == b'\\' then escaped else plain

abbrev pub int_of : String → ℤ
int_of text = elim (parse_i64 text) [ none ↦ pos 0 | some n ↦ n ]

abbrev pub word_token : String → ScriptToken
word_token w = if contains keywords w then keyword w else identifier w

-- A token or none, and the rest.
abbrev pub Step : Type 0
Step = Option ScriptToken × String

abbrev pub emit : ScriptToken → String → Step
emit t s = (some t, s)

abbrev pub digit_next : String → Bool
digit_next String.[] = false
digit_next (String.◌∷◌ c s) = is_digit (code c)

unfoldable pub lex_slash : String → Step
lex_slash s =
    let (pattern_text, after) = read_regex s in
    let (flags, rest) = span is_alphabetic after in
    if next_is b'/' s then (none, skip_line s) else emit (regex_lit pattern_text flags) rest

-- A comparison, alone or with `=` behind it.
abbrev pub lex_op : Option ScriptToken → ScriptToken → String → Step
lex_op alone with_eq s = if next_is b'=' s then emit with_eq (rest_of s) else (alone, s)

-- The arms for the characters that stand for themselves.
unfoldable pub lex_punct : ℕ → Option ScriptToken
lex_punct c =
    if c == b'{'
    then some l_brace
    else if c == b'}'
    then some r_brace
    else if c == b'('
    then some l_paren
    else if c == b')'
    then some r_paren
    else if c == b'['
    then some l_bracket
    else if c == b']'
    then some r_bracket
    else if c == b':'
    then some colon
    else if c == b','
    then some comma
    else if c == b'+'
    then some plus
    else none

unfoldable pub lex_number : Char → String → Step
lex_number c s =
    let (digits, rest) = span is_digit s in emit (int_lit (int_of (String.◌∷◌ c digits))) rest

unfoldable pub lex_word : Char → String → Step
lex_word c s = let (word, rest) = span is_word s in emit (word_token (String.◌∷◌ c word)) rest

unfoldable pub lex_string : String → Step
lex_string s = let (text, rest) = read_string s in emit (string_lit text) rest

-- The arms from the comparisons on.
unfoldable pub lex_other : Char → String → Step
lex_other c s =
    if code c == b'='
    then lex_op (some op_eq) op_eq s
    else if code c == b'!'
    then lex_op none op_ne s
    else if code c == b'<'
    then lex_op (some op_lt) op_le s
    else if code c == b'>'
    then lex_op (some op_gt) op_ge s
    else if is_digit (code c) || code c == b'-' && digit_next s
    then lex_number c s
    else if is_alphabetic (code c) || code c == b'_'
    then lex_word c s
    else (none, s)

-- One round of the loop, at a first character and what follows it.
unfoldable pub lex_step : Char → String → Step
lex_step c s =
    if is_space (code c)
    then (none, s)
    else if code c == b'#'
    then (none, skip_line s)
    else if code c == b'/'
    then lex_slash s
    else if code c == b'"'
    then lex_string s
    else elim (lex_punct (code c)) [ some t ↦ emit t s | none ↦ lex_other c s ]

abbrev pub add : Option ScriptToken → List ScriptToken → List ScriptToken
add none ts = ts
add (some t) ts = t ∷ ts

unfoldable pub lex : ℕ → String → Option (List ScriptToken)
lex zero s = none
lex (suc f) String.[] = some (eof ∷ [])
lex (suc f) (String.◌∷◌ c s) =
    let (token, rest) = lex_step c s in
    elim (lex f rest) [ none ↦ none | some ts ↦ some (add token ts) ]

unfoldable pub tokenize : String → Option (List ScriptToken)
unfolding count
tokenize src = lex (suc (count src)) src
