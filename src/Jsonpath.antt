-- ===== src/Jsonpath.antt =====
-- asceticddd/specification/domain/jsonpath/parser.go: tokens, errors and results, which the lexer
-- and the parser share.
pub mod Lexer
pub mod Parser
pub mod Binding
mod Tests
use Prim.Native.String.{String}
use ascetic_ddd_go.Base.{ℕ, List}

pub data TokenType : Type 0 where
  token_lbracket token_rbracket token_lparen token_rparen token_dot token_dollar token_at
        token_question token_wildcard token_and token_or token_eq token_ne token_gte token_lte
        token_gt token_lt token_not token_number token_string token_placeholder token_identifier
        token_whitespace :
      TokenType

pub record Token : Type 0 where
  pub type : TokenType
  pub value : String
  pub position : ℕ

-- The messages of `JSONPathSyntaxError`.
pub data Message : Type 0 where
  unexpected_character unexpected_end expected_field_name expected_wildcard expected_filter
        expected_path :
      Message
  unexpected_operator unexpected_token : String → Message

-- `out_of_fuel` is no result of the program: the fuel of the model ran out.
pub data Outcome (A : Type 0) : Type 0 where
  ok : A → Outcome A
  syntax_error : Message → ℕ → Outcome A
  out_of_fuel : Outcome A

infixl 5 ◌>>=◌
abbrev pub ◌>>=◌ : {A B : Type 0} → Outcome A → (A → Outcome B) → Outcome B
ok a >>= f = f a
syntax_error m p >>= f = syntax_error m p
out_of_fuel >>= f = out_of_fuel
