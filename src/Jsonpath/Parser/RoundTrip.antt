-- ===== src/Jsonpath/Parser/RoundTrip.antt =====
-- Printing and parsing templates of asceticddd/specification/domain/jsonpath/parser.go.
pub mod Comparisons
pub mod Size
use Prim.Native.Char.{Char}
use Prim.Native.String.{String}
use ascetic_ddd_go.Base.{
  ℕ, zero, suc, ◌+◌, ◌*◌, ◌≤◌, ◌≡◌, refl, sym, ap, ◌∙◌, Bool, true, false, List, [], ◌∷◌, Option,
  none, some, arith, length, if◌then◌else◌,
}
use ascetic_ddd_go.Specification.{
  Visitable, value_node, object, EmptiableObject, global_scope_node, object_node, item_node,
  field_node, and_one, or_one, wildcard,
}
use ascetic_ddd_go.Jsonpath.{
  TokenType, token_lbracket, token_rbracket, token_rparen, token_dot, token_dollar, token_at,
  token_question, token_wildcard, token_and, token_or, Token, Outcome, ok, ◌>>=◌,
}
use ascetic_ddd_go.Jsonpath.Parser.{
  Literal, Constant, constant, ParseContext, starts, skip, parse_identifier_chain, split_last,
  build_object_chain, check_nested_wildcard, is_wildcard_pattern, comparison, is_collection,
  negate_if, without_last, unquote, token_constant, word_value, lowers_to, scope_at, parse_value,
  parse_expression, or_loop, parse_and_expression, and_loop, parse_primary, parse_field_access,
  parse_path, fuel_for, initial, Parsed,
}
use ascetic_ddd_go.Jsonpath.Parser.Printing.{
  Relation, eq, ne, gt, lt, gte, lte, Operand, numeral, quoted, placeholder, word, null, Comparison,
  Conjunction, Disjunction, relation_type, relation_text, close_quote, put, put_names, put_operand,
  put_relation, put_field, put_comparison, put_not, put_ands, put_conjunction, put_ors,
  put_disjunction, put_filter, Template, specification, collection, put_template, template_node,
  is_collection_template, index_behind, ands_behind, conjunction_behind, ors_behind, context,
  relation_node, field_of, collection_of, not_if, operand_value, scope, comparison_node, ands_node,
  conjunction_node, ors_node, disjunction_node,
}
use ascetic_ddd_go.Jsonpath.Parser.RoundTrip.Comparisons.{
  bind-ok, parse_identifier_chain-put_names, parse_identifier_chain-put_bracket,
  parse_primary-put_comparison, collection_of-split_last,
}
use ascetic_ddd_go.Jsonpath.Parser.RoundTrip.Size.{
  ors_size, length-put_names, length-put_ands, length-put_comparison, length-put_ors,
  fuel_for-put_filter,
}

module _ (place : List Token → ℕ) where
  skip-put_ors :
      (es : List Conjunction)
      → skip token_rparen (put_ors place es (put place token_rbracket "]" []))
        ≡ put_ors place es (put place token_rbracket "]" [])
  unfolding skip
  skip-put_ors [] = refl
  skip-put_ors (e ∷ es) = refl

  starts-put_ors :
      (es : List Conjunction)
      → starts token_and (put_ors place es (put place token_rbracket "]" [])) ≡ false
  unfolding starts
  starts-put_ors [] = refl
  starts-put_ors (e ∷ es) = refl

  module _ (C U : Type 0) {F : Type 0} (parse_float : String → F) (last : ℕ) (inside : Bool) where
    skip-put_ands :
        (cs : List Comparison) (rest : List Token)
        → skip token_rparen rest ≡ rest
        → skip token_rparen (put_ands place cs rest) ≡ put_ands place cs rest
    unfolding skip
    skip-put_ands [] rest stops = stops
    skip-put_ands (c ∷ cs) rest stops = refl

    pub and_loop-put_ands :
        (n : ℕ) (node : Visitable (Constant C F U)) (cs : List Comparison) (rest : List Token)
        (i : ℕ)
        → length cs + 3 ≤ n
        → skip token_rparen rest ≡ rest
        → starts token_and rest ≡ false
        → and_loop C U parse_float last n node (put_ands place cs rest) (context inside i)
          ≡ ok (
            ands_node (operand_value C U parse_float) inside node cs i,
            rest,
            context inside (ands_behind cs i),
          )
    unfolding and_loop starts
    and_loop-put_ands zero node cs rest i h stops ends = absurd (omega arith)
    and_loop-put_ands (suc n) node [] rest i h stops ends = rw (ends, and_loop) refl
    and_loop-put_ands (suc n) node (c ∷ cs) rest i h stops ends =
        bind-ok
          (parse_primary C U parse_float last n (put_comparison place c (put_ands place cs rest))
            (context inside i))
          _
          (parse_primary-put_comparison place C U parse_float last inside n c
            (put_ands place cs rest) i (omega arith) (skip-put_ands cs rest stops))
          (and_loop-put_ands n
            (and_one node (comparison_node (operand_value C U parse_float) inside c i)) cs rest
            (index_behind c.operand i) (omega arith) stops ends)

    parse_and_expression-put_conjunction :
        (n : ℕ) (e : Conjunction) (rest : List Token) (i : ℕ)
        → length e.others + 4 ≤ n
        → skip token_rparen rest ≡ rest
        → starts token_and rest ≡ false
        → parse_and_expression C U parse_float last n
            (put_conjunction place e rest)
            (context inside i)
          ≡ ok (
            conjunction_node (operand_value C U parse_float) inside e i,
            rest,
            context inside (conjunction_behind e i),
          )
    unfolding parse_and_expression
    parse_and_expression-put_conjunction zero e rest i h stops ends = absurd (omega arith)
    parse_and_expression-put_conjunction (suc n) e rest i h stops ends =
        bind-ok
          (parse_primary C U parse_float last n (put_conjunction place e rest) (context inside i)) _
          (parse_primary-put_comparison place C U parse_float last inside n e.first
            (put_ands place e.others rest) i (omega arith) (skip-put_ands e.others rest stops))
          (and_loop-put_ands n (comparison_node (operand_value C U parse_float) inside e.first i)
            e.others rest (index_behind e.first.operand i) (omega arith) stops ends)

    or_loop-put_ors :
        (n : ℕ) (node : Visitable (Constant C F U)) (es : List Conjunction) (i : ℕ)
        → ors_size es + 5 ≤ n
        → or_loop C U parse_float last n node
            (put_ors place es (put place token_rbracket "]" []))
            (context inside i)
          ≡ ok (
            ors_node (operand_value C U parse_float) inside node es i,
            put place token_rbracket "]" [],
            context inside (ors_behind es i),
          )
    unfolding or_loop starts
    or_loop-put_ors zero node es i h = absurd (omega arith)
    or_loop-put_ors (suc n) node [] i h = refl
    or_loop-put_ors (suc n) node (e ∷ es) i h =
        let behind = put_ors place es (put place token_rbracket "]" []) in
        bind-ok
          (parse_and_expression C U parse_float last n (put_conjunction place e behind)
            (context inside i))
          _
          (parse_and_expression-put_conjunction n e behind i (omega arith) (skip-put_ors es)
            (starts-put_ors es))
          (or_loop-put_ors n
            (or_one node (conjunction_node (operand_value C U parse_float) inside e i)) es
            (conjunction_behind e i) (omega arith))

    -- The brackets in front of a filter are skipped by the first comparison.
    parse_primary-filter :
        (n : ℕ) (b : Bool) (ks : List Token) (ctx : ParseContext)
        → parse_primary C U parse_float last n
            (put place token_lbracket "["
              (put place token_question "?" (put_not place b (put place token_at "@" ks))))
            ctx
          ≡ parse_primary C U parse_float last n (put_not place b (put place token_at "@" ks)) ctx
    unfolding parse_primary skip starts
    parse_primary-filter zero b ks ctx = refl
    parse_primary-filter (suc n) true ks ctx = refl
    parse_primary-filter (suc n) false ks ctx = refl

    parse_expression-put_filter :
        (n : ℕ) (d : Disjunction)
        → length d.first.others + ors_size d.others + 7 ≤ n
        → parse_expression C U parse_float last n (put_filter place d) (context inside 0)
          ≡ ok (
            disjunction_node (operand_value C U parse_float) inside d,
            put place token_rbracket "]" [],
            context inside (ors_behind d.others (conjunction_behind d.first 0)),
          )
    unfolding parse_expression parse_and_expression
    parse_expression-put_filter zero d h = absurd (omega arith)
    parse_expression-put_filter (suc zero) d h = absurd (omega arith)
    parse_expression-put_filter (suc (suc n)) d h =
        let behind = put_ors place d.others (put place token_rbracket "]" []) in
        let c = d.first.first in
        bind-ok
          (parse_and_expression C U parse_float last (suc n) (put_filter place d)
            (context inside 0))
          _
          (bind-ok (parse_primary C U parse_float last n (put_filter place d) (context inside 0)) _
            (parse_primary-filter n c.negated
                (put place token_dot "." (
                  put_names place c.name c.more (
                    put_relation place c.relation c.operand
                      (put_ands place d.first.others behind))))
                (context inside 0)
              ∙ parse_primary-put_comparison place C U parse_float last inside n c
                  (put_ands place d.first.others behind) 0 (omega arith)
                  (skip-put_ands d.first.others behind (skip-put_ors d.others)))
            (and_loop-put_ands n (comparison_node (operand_value C U parse_float) inside c 0)
              d.first.others behind (index_behind c.operand 0) (omega arith) (skip-put_ors d.others)
              (starts-put_ors d.others)))
          (or_loop-put_ors (suc n)
            (conjunction_node (operand_value C U parse_float) inside d.first 0) d.others
            (conjunction_behind d.first 0) (omega arith))

  module _ (C U : Type 0) {F : Type 0} (parse_float : String → F) (last : ℕ) where
    -- With fuel for its tokens, parsing the tokens of a template, which is $[?e] or
    -- $.names[*][?e] for a disjunction e of conjunctions of comparisons, each negated or not and
    -- of a path below @ by any of the six operators with a literal or a placeholder, gives the
    -- tree of e, nested to the left with && inside ||, the placeholders numbered from 0 in the
    -- order of the text; whatever the positions of the tokens.
    pub parse_path-put_template :
        (n : ℕ) (t : Template)
        → fuel_for (put_template place t) ≤ n
        → parse_path C U parse_float last n (put_template place t) initial
          ≡ ok (template_node (operand_value C U parse_float) t, is_collection_template t)
    unfolding parse_path skip starts is_wildcard_pattern
    parse_path-put_template n (specification d) h =
        let chain =
          parse_identifier_chain-put_bracket place "[" token_question "?"
            (put_disjunction place d (put place token_rbracket "]" [])) in
        rw (chain, chain, chain, parse_path)
          (bind-ok (parse_expression C U parse_float last n (put_filter place d) (context false 0))
            _
            (parse_expression-put_filter C U parse_float last false n d
              (omega (arith, fuel_for-put_filter place d)))
            refl)
    parse_path-put_template n (collection name more d) h =
        let chain =
          parse_identifier_chain-put_names place name more token_lbracket "["
            (put place token_wildcard "*" (put place token_rbracket "]" (put_filter place d)))
            refl in
        rw (chain, chain, chain, parse_path)
          (bind-ok (parse_expression C U parse_float last n (put_filter place d) (context true 0)) _
            (parse_expression-put_filter C U parse_float last true n d (
              omega (
                arith,
                fuel_for-put_filter place d,
                length-put_names place name more (
                    put place token_lbracket "[" (
                      put place token_wildcard "*"
                        (put place token_rbracket "]" (put_filter place d)))),
              )))
            (ap (λ node. ok (node, true))
              (collection_of-split_last global_scope_node name more
                (disjunction_node (operand_value C U parse_float) true d))))
