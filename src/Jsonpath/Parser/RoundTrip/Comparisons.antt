-- ===== src/Jsonpath/Parser/RoundTrip/Comparisons.antt =====
-- Comparisons of asceticddd/specification/domain/jsonpath/parser.go, printed and parsed.
use Prim.Native.String.{String}
use ascetic_ddd_go.Base.{
  ℕ, zero, suc, ◌≤◌, ◌≡◌, refl, ap, ◌∙◌, Bool, true, false, List, [], ◌∷◌, some, arith,
}
use ascetic_ddd_go.Specification.{
  Visitable, value_node, object, EmptiableObject, object_node, field_node, wildcard,
}
use ascetic_ddd_go.Jsonpath.{
  TokenType, token_lbracket, token_rparen, token_dot, Token, Outcome, ok, ◌>>=◌,
}
use ascetic_ddd_go.Jsonpath.Parser.{
  Literal, Constant, constant, starts, skip, parse_identifier_chain, split_last, build_object_chain,
  check_nested_wildcard, is_wildcard_pattern, comparison, is_collection, negate_if, without_last,
  unquote, token_constant, word_value, lowers_to, scope_at, parse_value, parse_primary,
  parse_field_access,
}
use ascetic_ddd_go.Jsonpath.Parser.Printing.{
  Relation, eq, ne, gt, lt, gte, lte, Operand, numeral, quoted, placeholder, word, null, Comparison,
  relation_type, relation_text, close_quote, put, put_names, put_operand, put_relation, put_field,
  put_comparison, put_not, index_behind, context, relation_node, field_of, collection_of, not_if,
  operand_value, scope, comparison_node,
}

pub bind-ok :
    {A B : Type 0} (m : Outcome A) (f : A → Outcome B) {x : A} {y : Outcome B}
    → m ≡ ok x
    → f x ≡ y
    → (m >>= f) ≡ y
bind-ok m f h k = ap (λ n. n >>= f) h ∙ k

without_last-close_quote : (s : String) → without_last (close_quote s) ≡ s
unfolding without_last
without_last-close_quote String.[] = refl
without_last-close_quote (String.◌∷◌ c String.[]) = refl
without_last-close_quote (String.◌∷◌ c (String.◌∷◌ d s)) =
    ap (λ t. String.◌∷◌ c t) (without_last-close_quote (String.◌∷◌ d s))

unquote-close_quote : (s : String) → unquote (String.◌∷◌ "'" (close_quote s)) ≡ s
unfolding unquote
unquote-close_quote s = without_last-close_quote s

comparison-relation_type :
    {X : Type 0} (r : Relation) → comparison {X = X} (relation_type r) ≡ some (relation_node r)
unfolding comparison
comparison-relation_type eq = refl
comparison-relation_type ne = refl
comparison-relation_type gt = refl
comparison-relation_type lt = refl
comparison-relation_type gte = refl
comparison-relation_type lte = refl

-- The names of a field as the parser splits them.
field_of-split_last :
    {X : Type 0} (parent : EmptiableObject X) (name : String) (more : List String)
    → field_node (build_object_chain parent (split_last name more).0) (split_last name more).1
      ≡ field_of parent name more
unfolding build_object_chain split_last
field_of-split_last parent name [] = refl
field_of-split_last parent name (next ∷ names) =
    field_of-split_last (object_node parent name) next names

pub collection_of-split_last :
    {X : Type 0} (parent : EmptiableObject X) (name : String) (more : List String)
    (predicate : Visitable X)
    → object (
        wildcard
          (object_node
            (build_object_chain parent (split_last name more).0)
            (split_last name more).1)
          predicate)
      ≡ collection_of parent name more predicate
unfolding build_object_chain split_last
collection_of-split_last parent name [] predicate = refl
collection_of-split_last parent name (next ∷ names) predicate =
    collection_of-split_last (object_node parent name) next names predicate

field_of-is_collection :
    {X : Type 0} (parent : EmptiableObject X) (name : String) (more : List String)
    → is_collection (field_of parent name more) ≡ false
unfolding is_collection
field_of-is_collection parent name [] = refl
field_of-is_collection parent name (next ∷ names) =
    field_of-is_collection (object_node parent name) next names

module _ (place : List Token → ℕ) where
  -- A chain ends before a token that is no dot.
  pub parse_identifier_chain-put_names :
      (name : String) (more : List String) (t : TokenType) (v : String) (rest : List Token)
      → starts token_dot (put place t v rest) ≡ false
      → parse_identifier_chain (put_names place name more (put place t v rest))
        ≡ (name ∷ more, put place t v rest)
  unfolding parse_identifier_chain starts
  parse_identifier_chain-put_names name [] t v [] h = refl
  parse_identifier_chain-put_names name [] t v (k ∷ rest) h = ground (arith, h)
  parse_identifier_chain-put_names name (next ∷ []) t v rest h =
      ground (arith, parse_identifier_chain-put_names next [] t v rest h)
  parse_identifier_chain-put_names name (next ∷ m ∷ ms) t v rest h =
      ground (arith, parse_identifier_chain-put_names next (m ∷ ms) t v rest h)

  pub parse_identifier_chain-put_bracket :
      (v : String) (t : TokenType) (w : String) (rest : List Token)
      → parse_identifier_chain (put place token_lbracket v (put place t w rest))
        ≡ ([], put place token_lbracket v (put place t w rest))
  unfolding parse_identifier_chain
  parse_identifier_chain-put_bracket v t w [] = refl
  parse_identifier_chain-put_bracket v t w (k ∷ rest) = refl

  starts-put_relation :
      (r : Relation) (o : Operand) (rest : List Token)
      → starts token_dot (put_relation place r o rest) ≡ false
  unfolding starts
  starts-put_relation eq o rest = refl
  starts-put_relation ne o rest = refl
  starts-put_relation gt o rest = refl
  starts-put_relation lt o rest = refl
  starts-put_relation gte o rest = refl
  starts-put_relation lte o rest = refl

  check_nested_wildcard-put_relation :
      (r : Relation) (o : Operand) (rest : List Token)
      → check_nested_wildcard (put_relation place r o rest) ≡ false
  unfolding check_nested_wildcard is_wildcard_pattern starts
  check_nested_wildcard-put_relation eq o rest = refl
  check_nested_wildcard-put_relation ne o rest = refl
  check_nested_wildcard-put_relation gt o rest = refl
  check_nested_wildcard-put_relation lt o rest = refl
  check_nested_wildcard-put_relation gte o rest = refl
  check_nested_wildcard-put_relation lte o rest = refl

  module _ (C U : Type 0) {F : Type 0} (parse_float : String → F) (last : ℕ) (inside : Bool) where
    parse_value-put_operand :
        (o : Operand) (rest : List Token) (i : ℕ)
        → parse_value C U parse_float last (put_operand place o rest) (context inside i)
          ≡ ok (
            value_node (operand_value C U parse_float o i),
            rest,
            context inside (index_behind o i),
          )
    unfolding parse_value token_constant word_value lowers_to
    parse_value-put_operand (numeral s) rest i = refl
    parse_value-put_operand (quoted s) rest i =
        ap (λ t. ok (value_node (constant (Literal.text t)), rest, context inside i))
          (unquote-close_quote s)
    parse_value-put_operand (placeholder s) rest i = refl
    parse_value-put_operand (word true) rest i = refl
    parse_value-put_operand (word false) rest i = refl
    parse_value-put_operand null rest i = refl

    parse_field_access-put_field :
        (n : ℕ) (name : String) (more : List String) (r : Relation) (o : Operand)
        (rest : List Token) (i : ℕ)
        → parse_field_access C U parse_float last
            (suc n)
            (put_field place name more (put_relation place r o rest))
            (context inside i)
          ≡ ok (
            field_of (scope (operand_value C U parse_float) inside) name more,
            put_relation place r o rest,
            context inside i,
          )
    unfolding parse_field_access skip scope_at starts
    parse_field_access-put_field n name more r o rest i =
        let chain =
          parse_identifier_chain-put_names name more (relation_type r) (relation_text r)
            (put_operand place o rest) (starts-put_relation r o rest) in
        rw (chain, chain, check_nested_wildcard-put_relation r o rest, chain, parse_field_access)
          (ap (λ f. ok (f, put_relation place r o rest, context inside i))
            (field_of-split_last (scope (operand_value C U parse_float) inside) name more))

    parse_primary-put_not :
        (n : ℕ) (b : Bool) (name : String) (more : List String) (r : Relation) (o : Operand)
        (rest : List Token) (i : ℕ)
        → parse_primary C U parse_float last
            (suc (suc n))
            (put_not place b (put_field place name more (put_relation place r o rest)))
            (context inside i)
          ≡ ok (
            not_if b (
                relation_node r
                  (field_of (scope (operand_value C U parse_float) inside) name more)
                  (value_node (operand_value C U parse_float o i))),
            skip token_rparen rest,
            context inside (index_behind o i),
          )
    unfolding parse_primary skip starts negate_if
    parse_primary-put_not n true name more r o rest i =
        bind-ok
          (parse_field_access C U parse_float last (suc n)
            (put_field place name more (put_relation place r o rest)) (context inside i))
          _ (parse_field_access-put_field n name more r o rest i)
          (rw (field_of-is_collection (scope (operand_value C U parse_float) inside) name more) (
            bind-ok (parse_value C U parse_float last (put_operand place o rest) (context inside i))
              _ (parse_value-put_operand o rest i)
              (rw (comparison-relation_type {X = Constant C F U} r) refl)))
    parse_primary-put_not n false name more r o rest i =
        bind-ok
          (parse_field_access C U parse_float last (suc n)
            (put_field place name more (put_relation place r o rest)) (context inside i))
          _ (parse_field_access-put_field n name more r o rest i)
          (rw (field_of-is_collection (scope (operand_value C U parse_float) inside) name more) (
            bind-ok (parse_value C U parse_float last (put_operand place o rest) (context inside i))
              _ (parse_value-put_operand o rest i)
              (rw (comparison-relation_type {X = Constant C F U} r) refl)))

    pub parse_primary_unskipped :
        (n : ℕ) (c : Comparison) (rest : List Token) (i : ℕ)
        → 2 ≤ n
        → parse_primary C U parse_float last n (put_comparison place c rest) (context inside i)
          ≡ ok (
            comparison_node (operand_value C U parse_float) inside c i,
            skip token_rparen rest,
            context inside (index_behind c.operand i),
          )
    parse_primary_unskipped zero c rest i h = absurd (omega arith)
    parse_primary_unskipped (suc zero) c rest i h = absurd (omega arith)
    parse_primary_unskipped (suc (suc n)) c rest i h =
        parse_primary-put_not n c.negated c.name c.more c.relation c.operand rest i

    pub parse_primary-put_comparison :
        (n : ℕ) (c : Comparison) (rest : List Token) (i : ℕ)
        → 2 ≤ n
        → skip token_rparen rest ≡ rest
        → parse_primary C U parse_float last n (put_comparison place c rest) (context inside i)
          ≡ ok (
            comparison_node (operand_value C U parse_float) inside c i,
            rest,
            context inside (index_behind c.operand i),
          )
    parse_primary-put_comparison n c rest i h stops =
        parse_primary_unskipped n c rest i h
        ∙ ap
            (λ ks. ok (
              comparison_node (operand_value C U parse_float) inside c i,
              ks,
              context inside (index_behind c.operand i),
            ))
            stops
