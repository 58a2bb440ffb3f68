-- ===== src/Jsonpath/Parser.antt =====
-- The recursive-descent parser of asceticddd/specification/domain/jsonpath/parser.go. What the
-- source says by an index into the tokens is said by the list of the tokens from there on. A literal
-- is the source's `any`; floats are a type `F` of their own, with `strconv.ParseFloat`.
pub mod Within
pub mod Totality
pub mod Printing
pub mod Shape
pub mod RoundTrip
pub mod Grouping
use Prim.Native.Char.{code}
use Prim.Native.String.{String, len}
use ascetic_ddd_go.Base.{
  ℕ, zero, suc, ◌+◌, ◌-◌, ◌*◌, ◌^◌, Bool, true, false, not, ◌&&◌, ◌||◌, if◌then◌else◌, leb, ltb,
  ◌==◌, List, [], ◌∷◌, Option, none, some, foldl, length,
}
use ascetic_ddd_go.Specification.{
  Visitable, value_node, object, EmptiableObject, global_scope_node, object_node, collection_node,
  item_node, field_node, equal, not_equal, greater_than, less_than, greater_than_equal,
  less_than_equal, not_, and_one, or_one, wildcard,
}
use ascetic_ddd_go.Specification.Operators.{Any, nil, bool, some_other}
use ascetic_ddd_go.Specification.Evaluation.{Datum, plain}
use ascetic_ddd_go.Jsonpath.{
  TokenType, token_lbracket, token_rbracket, token_lparen, token_rparen, token_dot, token_dollar,
  token_at, token_question, token_wildcard, token_and, token_or, token_eq, token_ne, token_gte,
  token_lte, token_gt, token_lt, token_not, token_number, token_string, token_placeholder,
  token_identifier, token_whitespace, Token, Message, unexpected_end, expected_field_name,
  expected_wildcard, expected_filter, expected_path, unexpected_operator, unexpected_token, Outcome,
  ok, syntax_error, out_of_fuel, ◌>>=◌,
}
use ascetic_ddd_go.Jsonpath.Lexer.{strip, tokenize}

-- The values of a template: `placeholderMarker`, integers by sign and size, floats, texts, and what
-- parameters may be besides.
pub data Literal (F U : Type 0) : Type 0 where
  placeholder_marker : ℕ → Literal F U
  integer : Bool → ℕ → Literal F U
  floating : F → Literal F U
  text : String → Literal F U
  other : U → Literal F U

pub record ParseContext : Type 0 where
  pub placeholder_bind_index : ℕ
  pub is_wildcard_context : Bool

-- Token types are compared by number.
abbrev pub number_of : TokenType → ℕ
number_of token_lbracket = 0
number_of token_rbracket = 1
number_of token_lparen = 2
number_of token_rparen = 3
number_of token_dot = 4
number_of token_dollar = 5
number_of token_at = 6
number_of token_question = 7
number_of token_wildcard = 8
number_of token_and = 9
number_of token_or = 10
number_of token_eq = 11
number_of token_ne = 12
number_of token_gte = 13
number_of token_lte = 14
number_of token_gt = 15
number_of token_lt = 16
number_of token_not = 17
number_of token_number = 18
number_of token_string = 19
number_of token_placeholder = 20
number_of token_identifier = 21
number_of token_whitespace = 22

-- `i < len(tokens) && tokens[i].Type == t`
unfoldable pub starts : TokenType → List Token → Bool
starts t [] = false
starts t (k ∷ ks) = number_of k.type == number_of t

unfoldable pub skip : TokenType → List Token → List Token
skip t [] = []
skip t (k ∷ ks) = if number_of k.type == number_of t then ks else k ∷ ks

abbrev pub rest_of : {A : Type 0} → List A → List A
rest_of [] = []
rest_of (_ ∷ xs) = xs

-- The names of a chain, and the tokens behind it.
unfoldable pub parse_identifier_chain : List Token → List String × List Token
parse_identifier_chain [] = ([], [])
parse_identifier_chain (k ∷ []) =
    if number_of k.type == number_of token_identifier then (k.value ∷ [], []) else ([], k ∷ [])
parse_identifier_chain (k ∷ d ∷ []) =
    if number_of k.type == number_of token_identifier
    then (k.value ∷ [], d ∷ [])
    else ([], k ∷ d ∷ [])
parse_identifier_chain (k ∷ d ∷ i ∷ rest) =
    let further = parse_identifier_chain (i ∷ rest) in
    if number_of k.type == number_of token_identifier
    then (if number_of d.type == number_of token_dot
          && number_of i.type == number_of token_identifier
        then (k.value ∷ further.0, further.1)
        else (k.value ∷ [], d ∷ i ∷ rest))
    else ([], k ∷ d ∷ i ∷ rest)

unfoldable pub build_object_chain :
    {X : Type 0} → EmptiableObject X → List String → EmptiableObject X
build_object_chain parent names = foldl (λ result name. object_node result name) parent names

-- `[*]`
unfoldable pub is_wildcard_pattern : List Token → Bool
is_wildcard_pattern tokens =
    starts token_lbracket tokens
    && starts token_wildcard (rest_of tokens)
    && starts token_rbracket (rest_of (rest_of tokens))

abbrev pub after_wildcard : List Token → List Token
after_wildcard tokens = rest_of (rest_of (rest_of tokens))

unfoldable pub check_nested_wildcard : List Token → Bool
check_nested_wildcard tokens =
    is_wildcard_pattern tokens && starts token_lbracket (after_wildcard tokens)

-- The names but the last, and the last; `none` for no names.
unfoldable pub split_last : String → List String → List String × String
split_last name [] = ([], name)
split_last name (next ∷ names) = let later = split_last next names in (name ∷ later.0, later.1)

-- `strconv.Atoi` without its error: out of range, it is the nearest number in range.
unfoldable pub decimal : ℕ → String → ℕ
decimal n String.[] = n
decimal n (String.◌∷◌ c s) = decimal (n * 10 + (code c - 48)) s

unfoldable pub clamp : ℕ → ℕ → ℕ
clamp most n = if ltb most n then most else n

unfoldable pub signed : {F U : Type 0} → Bool → ℕ → Literal F U
signed negative zero = integer false 0
signed negative (suc n) = integer negative (suc n)

unfoldable pub atoi : {F U : Type 0} → String → Literal F U
atoi s = elim (strip "-" s) [
  | some digits ↦ signed true (clamp (2 ^ 63) (decimal 0 digits))
  | none ↦ signed false (clamp (2 ^ 63 - 1) (decimal 0 s))
]

unfoldable pub contains_dot : String → Bool
contains_dot String.[] = false
contains_dot (String.◌∷◌ c s) = code c == b'.' || contains_dot s

-- `token.Value[1 : len(token.Value)-1]`
unfoldable pub without_last : String → String
without_last String.[] = String.[]
without_last (String.◌∷◌ c String.[]) = String.[]
without_last (String.◌∷◌ c (String.◌∷◌ d s)) = String.◌∷◌ c (without_last (String.◌∷◌ d s))

unfoldable pub unquote : String → String
unquote String.[] = String.[]
unquote (String.◌∷◌ c s) = without_last s

-- `strings.ToLower(value) == word`, for an ASCII value and a word in lower case
unfoldable pub lowers_to : String → String → Bool
lowers_to String.[] String.[] = true
lowers_to String.[] (String.◌∷◌ d w) = false
lowers_to (String.◌∷◌ c s) String.[] = false
lowers_to (String.◌∷◌ c s) (String.◌∷◌ d w) =
    (if leb b'A' (code c) && leb (code c) b'Z' then code c + 32 else code c) == code d
    && lowers_to s w

module _ {X : Type 0} where
  unfoldable pub comparison : TokenType → Option (Visitable X → Visitable X → Visitable X)
  comparison token_eq = some equal
  comparison token_ne = some not_equal
  comparison token_gt = some greater_than
  comparison token_lt = some less_than
  comparison token_gte = some greater_than_equal
  comparison token_lte = some less_than_equal
  comparison _ = none

  abbrev pub is_collection_node : EmptiableObject X → Bool
  is_collection_node (collection_node parent name predicate) = true
  is_collection_node _ = false

  -- `leftNode.(spec.CollectionNode)`
  unfoldable pub is_collection : Visitable X → Bool
  is_collection (object obj) = is_collection_node obj
  is_collection _ = false

  unfoldable pub negate_if : Bool → Visitable X → Visitable X
  negate_if negative node = elim negative [ true ↦ not_ node | false ↦ node ]

-- The values of nodes, over contexts `C`, floats `F` and other values `U`.
abbrev pub Constant : Type 0 → Type 0 → Type 0 → Type 0
Constant C F U = Any (Datum C (Literal F U))

abbrev pub constant : {C F U : Type 0} → Literal F U → Constant C F U
constant x = some_other (plain x)

abbrev pub Parsed : Type 0 → Type 0
Parsed X = Outcome (Visitable X × List Token × ParseContext)

-- The position of the next token, or the end of the template, at `last`.
abbrev pub position_at : ℕ → List Token → ℕ
position_at last [] = last
position_at last (k ∷ ks) = k.position

unfoldable pub number : {F U : Type 0} → (String → F) → String → Literal F U
number parse_float s = if contains_dot s then floating (parse_float s) else atoi s

-- The fuel is enough: Jsonpath/Parser/Totality.antt.
abbrev pub fuel_for : List Token → ℕ
fuel_for tokens = 3 * length tokens + 5

abbrev pub initial : ParseContext
initial = record { placeholder_bind_index = 0; is_wildcard_context = false }

module _ (C U : Type 0) {F : Type 0} (parse_float : String → F) where
  unfoldable pub word_value : String → Option (Constant C F U)
  word_value s =
      if lowers_to s "true"
      then some (bool true)
      else if lowers_to s "false"
      then some (bool false)
      else if lowers_to s "null"
      then some nil
      else none

  -- The value of a token, if it has one.
  unfoldable pub token_constant : ParseContext → Token → Option (Constant C F U × ParseContext)
  token_constant ctx k = elim k.type [
    | token_number ↦ some (constant (number parse_float k.value), ctx)
    | token_string ↦ some (constant (text (unquote k.value)), ctx)
    | token_placeholder ↦ some (
      constant (placeholder_marker ctx.placeholder_bind_index),
      record ctx { placeholder_bind_index = suc ctx.placeholder_bind_index },
    )
    | token_identifier ↦ elim (word_value k.value) [ some x ↦ some (x, ctx) | none ↦ none ]
    | _ ↦ none
  ]

  module _ (last : ℕ) where
    unfoldable pub parse_value : List Token → ParseContext → Parsed (Constant C F U)
    parse_value [] ctx = syntax_error unexpected_end last
    parse_value (k ∷ rest) ctx = elim (token_constant ctx k) [
      | none ↦ syntax_error (unexpected_token k.value) k.position
      | some (x, ctx') ↦ ok (value_node x, rest, ctx')
    ]

    -- The parent of a field path.
    unfoldable pub scope_at : List Token → ParseContext → EmptiableObject (Constant C F U)
    scope_at tokens ctx =
        if starts token_at tokens && ctx.is_wildcard_context then item_node else global_scope_node

    unfoldable mutual
      pub parse_expression : ℕ → List Token → ParseContext → Parsed (Constant C F U)
      parse_expression zero tokens ctx = out_of_fuel
      parse_expression (suc n) tokens ctx = do
        out ← parse_and_expression n tokens ctx
        or_loop n out.0 out.1 out.2

      -- `for i < len(tokens) && tokens[i].Type == TokenOr`
      pub or_loop :
          ℕ → Visitable (Constant C F U) → List Token → ParseContext → Parsed (Constant C F U)
      or_loop zero node tokens ctx = out_of_fuel
      or_loop (suc n) node tokens ctx = elim (starts token_or tokens) [
        | false ↦ ok (node, tokens, ctx)
        | true ↦
            (parse_and_expression n (rest_of tokens) ctx >>= λ out.
            or_loop n (or_one node out.0) out.1 out.2)
      ]

      pub parse_and_expression : ℕ → List Token → ParseContext → Parsed (Constant C F U)
      parse_and_expression zero tokens ctx = out_of_fuel
      parse_and_expression (suc n) tokens ctx = do
        out ← parse_primary n tokens ctx
        and_loop n out.0 out.1 out.2

      pub and_loop :
          ℕ → Visitable (Constant C F U) → List Token → ParseContext → Parsed (Constant C F U)
      and_loop zero node tokens ctx = out_of_fuel
      and_loop (suc n) node tokens ctx = elim (starts token_and tokens) [
        | false ↦ ok (node, tokens, ctx)
        | true ↦
            (parse_primary n (rest_of tokens) ctx >>= λ out.
            and_loop n (and_one node out.0) out.1 out.2)
      ]

      pub parse_primary : ℕ → List Token → ParseContext → Parsed (Constant C F U)
      parse_primary zero tokens ctx = out_of_fuel
      parse_primary (suc n) tokens ctx =
          let opened = skip token_question (skip token_lbracket tokens) in
          let negative = starts token_not opened in
          let inner = skip token_not opened in
          elim (starts token_lparen inner) [
            | true ↦
                (parse_expression n (rest_of inner) ctx >>= λ out.
                ok (negate_if negative out.0, skip token_rparen out.1, out.2))
            | false ↦
                (parse_field_access n inner ctx >>= λ left. elim (is_collection left.0) [
                  | true ↦ ok (negate_if negative left.0, skip token_rparen left.1, left.2)
                  | false ↦ elim left.1 [
                    | [] ↦ ok (negate_if negative left.0, [], left.2)
                    | op ∷ more ↦
                        (parse_value more left.2 >>= λ right. elim (comparison op.type) [
                          | none ↦ syntax_error (unexpected_operator op.value) op.position
                          | some compare ↦ ok (
                            negate_if negative (compare left.0 right.0),
                            skip token_rparen right.1,
                            right.2,
                          )
                        ])
                  ]
                ])
          ]

      pub parse_field_access : ℕ → List Token → ParseContext → Parsed (Constant C F U)
      parse_field_access zero tokens ctx = out_of_fuel
      parse_field_access (suc n) tokens ctx =
          let parent = scope_at tokens ctx in
          let chain = parse_identifier_chain (skip token_dot (skip token_at tokens)) in
          elim chain.0 [
            | [] ↦ syntax_error expected_field_name (position_at last chain.1)
            | name ∷ names ↦
                let fields = split_last name names in
                let above = build_object_chain parent fields.0 in
                elim (check_nested_wildcard chain.1) [
                  | false ↦ ok (field_node above fields.1, chain.1, ctx)
                  | true ↦ parse_nested_wildcard n chain.1 ctx above fields.1
                ]
          ]

      pub parse_nested_wildcard :
          ℕ
          → List Token
          → ParseContext
          → EmptiableObject (Constant C F U)
          → String
          → Parsed (Constant C F U)
      parse_nested_wildcard zero tokens ctx parent name = out_of_fuel
      parse_nested_wildcard (suc n) tokens ctx parent name = elim (is_wildcard_pattern tokens) [
        | false ↦ syntax_error expected_wildcard (position_at last tokens)
        | true ↦
            let filter = after_wildcard tokens in
            elim (starts token_lbracket filter) [
              | false ↦ syntax_error expected_filter (position_at last filter)
              | true ↦
                  (parse_expression n filter (record ctx { is_wildcard_context = true }) >>= λ out.
                  ok (
                    object (wildcard (object_node parent name) out.0),
                    out.1,
                    record out.2 { is_wildcard_context = ctx.is_wildcard_context },
                  ))
            ]
      ]

    -- The node, and whether the template is a wildcard. What is left of the tokens is dropped.
    unfoldable pub parse_path :
        ℕ → List Token → ParseContext → Outcome (Visitable (Constant C F U) × Bool)
    parse_path n tokens ctx =
        let chain = parse_identifier_chain (skip token_dot (skip token_dollar tokens)) in
        elim chain.0 [
          | [] ↦ elim (starts token_lbracket chain.1) [
            | false ↦ syntax_error expected_path (position_at last chain.1)
            | true ↦
                (parse_expression n chain.1 (record ctx { is_wildcard_context = false }) >>= λ out.
                ok (out.0, false))
          ]
          | name ∷ names ↦
              let fields = split_last name names in
              let parent = build_object_chain global_scope_node fields.0 in
              let is_wildcard = is_wildcard_pattern chain.1 in
              let filter = if is_wildcard then after_wildcard chain.1 else chain.1 in
              elim (starts token_lbracket filter) [
                | false ↦ syntax_error expected_filter (position_at last filter)
                | true ↦
                    (parse_expression n filter (record ctx { is_wildcard_context = is_wildcard })
                      >>= λ out. elim is_wildcard [
                        | true ↦ ok (object (wildcard (object_node parent fields.1) out.0), true)
                        | false ↦ ok (out.0, false)
                      ])
              ]
        ]

  unfoldable pub parse : String → Outcome (Visitable (Constant C F U) × Bool)
  parse template = do
    tokens ← tokenize template
    parse_path (len template) (fuel_for tokens) tokens initial
