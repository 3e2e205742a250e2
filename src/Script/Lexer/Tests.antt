-- ===== src/Script/Lexer/Tests.antt =====
-- parser.rs: sources and their tokens.
use thor_firewall_smart.Prelude.{◌≡◌, refl, some, [], ◌∷◌, contains}
use thor_firewall_smart.Prelude.Int.{negsuc, parse_i64, digits_from}
use thor_firewall_smart.Script.Syntax.{
  keyword, identifier, string_lit, int_lit, regex_lit, l_brace, r_brace, op_le, eof,
}
use thor_firewall_smart.Script.Lexer.{
  tokenize, lex, lex_step, lex_slash, lex_number, lex_word, lex_string, lex_other, lex_punct, span,
  skip_line, read_string, read_regex,
}

tokenize_rule :
    tokenize "rule \"a\\\"b\" { # comment\n x <= -12 and payload match /EV\\/IL/i } // end"
    ≡ some (
        keyword "rule"
        ∷ string_lit "a\"b"
        ∷ l_brace
        ∷ identifier "x"
        ∷ op_le
        ∷ int_lit (negsuc 11)
        ∷ keyword "and"
        ∷ keyword "payload"
        ∷ keyword "match"
        ∷ regex_lit "EV\\/IL" "i"
        ∷ r_brace
        ∷ eof
        ∷ [])
unfolding tokenize lex lex_step lex_slash lex_number lex_word lex_string lex_other lex_punct span
    skip_line read_string read_regex contains parse_i64 digits_from
tokenize_rule = refl
