-- ===== src/Jsonpath/Lexer.antt =====
-- The lexer of asceticddd/specification/domain/jsonpath/parser.go. The regular expressions of
-- `tokenPatterns` are written out as scanners, tried in the order of the table; a position counts
-- the bytes of the text.
pub mod Totality
use Prim.Native.Char.{Char, code}
use Prim.Native.String.{String, len}
use Prim.Native.String.{◌++◌ as ◌⊕◌}
use ascetic_ddd_go.Base.{
  ℕ, zero, suc, ◌+◌, Bool, true, false, not, ◌&&◌, ◌||◌, if◌then◌else◌, leb, ◌==◌, List, [], ◌∷◌,
  Option, none, some,
}
use ascetic_ddd_go.Jsonpath.{
  TokenType, token_lbracket, token_rbracket, token_lparen, token_rparen, token_dot, token_dollar,
  token_at, token_question, token_wildcard, token_and, token_or, token_eq, token_ne, token_gte,
  token_lte, token_gt, token_lt, token_not, token_number, token_string, token_placeholder,
  token_identifier, token_whitespace, Token, Message, unexpected_character, Outcome, ok,
  syntax_error, out_of_fuel, ◌>>=◌,
}

abbrev pub is_digit : ℕ → Bool
is_digit c = leb b'0' c && leb c b'9'

abbrev pub is_letter : ℕ → Bool
is_letter c = (leb b'a' c && leb c b'z') || (leb b'A' c && leb c b'Z') || c == b'_'

-- `\w`
abbrev pub is_word : ℕ → Bool
is_word c = is_letter c || is_digit c

-- `\s`
abbrev pub is_space : ℕ → Bool
is_space c = c == 9 || c == 10 || c == 12 || c == 13 || c == 32

abbrev pub is_format : ℕ → Bool
is_format c = c == b's' || c == b'd' || c == b'f'

-- The text without a prefix, if it has it.
unfoldable pub strip : String → String → Option String
strip String.[] s = some s
strip (String.◌∷◌ c p) String.[] = none
strip (String.◌∷◌ c p) (String.◌∷◌ d s) = if code c == code d then strip p s else none

abbrev pub extend : Bool → Char → String → String × String → String × String
extend true c s (prefix, tail) = (String.◌∷◌ c prefix, tail)
extend false c s rest = (String.[], String.◌∷◌ c s)

-- The longest prefix of characters with a property, and what follows it.
unfoldable pub span : (ℕ → Bool) → String → String × String
span p String.[] = (String.[], String.[])
span p (String.◌∷◌ c s) = extend (p (code c)) c s (span p s)

unfoldable pub is_empty : String → Bool
is_empty String.[] = true
is_empty (String.◌∷◌ c s) = false

-- What a scanner matched, and what follows it.
abbrev pub Match : Type 0
Match = Option (String × String)

-- `^-?\d+\.?\d*`, behind the sign
unfoldable pub scan_unsigned : String → String → Match
scan_unsigned sign s =
    let whole = span is_digit s in
    if is_empty whole.0 then none else elim (strip "." whole.1) [
      | none ↦ some (sign ⊕ whole.0, whole.1)
      | some tail ↦
          let fraction = span is_digit tail in
          some (sign ⊕ (whole.0 ⊕ ("." ⊕ fraction.0)), fraction.1)
    ]

unfoldable pub scan_number : String → Match
scan_number s = elim (strip "-" s) [
  | some tail ↦ scan_unsigned "-" tail
  | none ↦ scan_unsigned "" s
]

unfoldable pub is_quote : String → ℕ → Bool
is_quote String.[] c = false
is_quote (String.◌∷◌ q _) c = code q == c

-- `'[^']*'` and `"[^"]*"`
unfoldable pub scan_quoted : String → String → Match
scan_quoted quote s = elim (strip quote s) [
  | none ↦ none
  | some tail ↦
      let inside = span (λ c. not (is_quote quote c)) tail in
      elim (strip quote inside.1) [
        | none ↦ none
        | some rest ↦ some (quote ⊕ (inside.0 ⊕ quote), rest)
      ]
]

unfoldable pub scan_string : String → Match
scan_string s = elim (scan_quoted "'" s) [ some m ↦ some m | none ↦ scan_quoted "\"" s ]

-- `[sdf]` behind what is matched already
unfoldable pub scan_format : String → String → Match
scan_format before String.[] = none
scan_format before (String.◌∷◌ c s) =
    if is_format (code c) then some (before ⊕ String.◌∷◌ c String.[], s) else none

-- `%\(\w+\)[sdf]`, then `%[sdf]`
unfoldable pub scan_placeholder : String → Match
scan_placeholder s = elim (strip "%(" s) [
  | some tail ↦
      let name = span is_word tail in
      if is_empty name.0 then none else elim (strip ")" name.1) [
        | none ↦ none
        | some rest ↦ scan_format ("%(" ⊕ (name.0 ⊕ ")")) rest
      ]
  | none ↦ elim (strip "%" s) [ none ↦ none | some tail ↦ scan_format "%" tail ]
]

unfoldable pub scan_identifier : String → Match
scan_identifier String.[] = none
scan_identifier (String.◌∷◌ c s) =
    let rest = span is_word s in
    if is_letter (code c) then some (String.◌∷◌ c rest.0, rest.1) else none

unfoldable pub scan_space : String → Match
scan_space s = let blank = span is_space s in if is_empty blank.0 then none else some blank

-- The patterns of one text only, in the order of the table.
abbrev pub symbols : List (TokenType × String)
symbols =
    (token_lbracket, "[")
    ∷ (token_rbracket, "]")
    ∷ (token_lparen, "(")
    ∷ (token_rparen, ")")
    ∷ (token_dot, ".")
    ∷ (token_dollar, "$")
    ∷ (token_at, "@")
    ∷ (token_question, "?")
    ∷ (token_wildcard, "*")
    ∷ (token_and, "&&")
    ∷ (token_or, "||")
    ∷ (token_eq, "==")
    ∷ (token_ne, "!=")
    ∷ (token_gte, ">=")
    ∷ (token_lte, "<=")
    ∷ (token_gt, ">")
    ∷ (token_lt, "<")
    ∷ (token_not, "!")
    ∷ []

abbrev pub Scanned : Type 0
Scanned = Option (TokenType × String × String)

unfoldable pub scan_symbol : List (TokenType × String) → String → Scanned
scan_symbol [] s = none
scan_symbol ((t, text) ∷ rest) s =
    let later = scan_symbol rest s in
    elim (strip text s) [ some tail ↦ some (t, text, tail) | none ↦ later ]

-- The first pattern that matches.
abbrev pub first_match : List (TokenType × Match) → Scanned
first_match [] = none
first_match ((t, some (value, tail)) ∷ rest) = some (t, value, tail)
first_match ((t, none) ∷ rest) = first_match rest

unfoldable pub scan : String → Scanned
scan s = elim (scan_symbol symbols s) [
  | some found ↦ some found
  | none ↦ first_match (
      (token_number, scan_number s)
      ∷ (token_string, scan_string s)
      ∷ (token_placeholder, scan_placeholder s)
      ∷ (token_identifier, scan_identifier s)
      ∷ (token_whitespace, scan_space s)
      ∷ [])
]

abbrev pub is_whitespace : TokenType → Bool
is_whitespace token_whitespace = true
is_whitespace _ = false

-- `Tokenize`, from a position on.
unfoldable pub tokenize_from : ℕ → ℕ → String → Outcome (List Token)
tokenize_from fuel position String.[] = ok []
tokenize_from zero position (String.◌∷◌ c s) = out_of_fuel
tokenize_from (suc fuel) position (String.◌∷◌ c s) = elim (scan (String.◌∷◌ c s)) [
  | none ↦ syntax_error unexpected_character position
  | some (t, value, tail) ↦
      let later = tokenize_from fuel (position + len value) tail in
      elim (is_whitespace t) [
        | true ↦ later
        | false ↦ later >>= λ tokens.
            ok (record { type = t; value = value; position = position } ∷ tokens)
      ]
]

-- The number of characters, the fuel: each round matches one at least.
unfoldable pub size : String → ℕ
size String.[] = 0
size (String.◌∷◌ c s) = suc (size s)

unfoldable pub tokenize : String → Outcome (List Token)
tokenize text = tokenize_from (size text) 0 text
