-- ===== src/Jsonpath/Parser/Totality.antt =====
-- The fuel of the parser of asceticddd/specification/domain/jsonpath/parser.go.
use Prim.Native.String.{String, len}
use ascetic_ddd_go.Base.{
  ℕ, zero, suc, ◌+◌, ◌*◌, ◌≤◌, ◌≡◌, sym, ap, true, false, List, [], ◌∷◌, arith, length,
  Option-cases, inl, inr,
}
use ascetic_ddd_go.Specification.{Visitable, EmptiableObject, and_one, or_one}
use ascetic_ddd_go.Jsonpath.{
  token_lbracket, token_lparen, token_rparen, token_or, token_and, token_question, token_not,
  token_at, token_dot, Token,
}
use ascetic_ddd_go.Jsonpath.{token_dollar}
use ascetic_ddd_go.Jsonpath.Lexer.{size, tokenize, tokenize_from}
use ascetic_ddd_go.Jsonpath.Lexer.Totality.{
  Halts, Halts-bind, Halts-branch, Halts-list, tokenize_from-Halts,
}
use native.Mathlib.Nat.{le_refl}
use ascetic_ddd_go.Jsonpath.Parser.{
  initial, parse, ParseContext, Constant, starts, skip, rest_of, after_wildcard,
  is_wildcard_pattern, parse_identifier_chain, parse_value, parse_expression, or_loop,
  parse_and_expression, and_loop, parse_primary, parse_field_access, parse_nested_wildcard,
  parse_path, fuel_for, is_collection, comparison, check_nested_wildcard, scope_at, split_last,
  build_object_chain, token_constant,
}
use ascetic_ddd_go.Jsonpath.Parser.Within.{
  Within, Within-bind, Within-weaken, Within-branch, Within-list, Within-option, length-skip,
  length-rest_of, length-after_wildcard, length-parse_identifier_chain,
  parse_identifier_chain-shorter, filter_of, length-filter, Halts-Within,
}

module _ (C U : Type 0) {F : Type 0} (parse_float : String → F) (last : ℕ) where
  parse_value-Within :
      (ks : List Token) (ctx : ParseContext)
      → Within (length ks) (parse_value C U parse_float last ks ctx)
  unfolding parse_value
  parse_value-Within [] ctx = tt
  parse_value-Within (k ∷ ks) ctx = elim (Option-cases (token_constant C U parse_float ctx k)) [
    | inl h ↦ ground (arith, h)
    | inr (out, h) ↦ ground (arith, h)
  ]

  mutual
    unfolding parse_expression or_loop parse_and_expression and_loop parse_primary
        parse_field_access parse_nested_wildcard

    parse_expression-Within :
        (n : ℕ) (ks : List Token) (ctx : ParseContext)
        → 3 * length ks + 5 ≤ n
        → Within (length ks) (parse_expression C U parse_float last n ks ctx)
    parse_expression-Within zero ks ctx h = absurd (omega arith)
    parse_expression-Within (suc n) ks ctx h =
        Within-bind (length ks) (length ks) (parse_and_expression C U parse_float last n ks ctx) _
          (parse_and_expression-Within n ks ctx (omega arith))
          (λ out le. or_loop-Within n (length ks) out.0 out.1 out.2 le (omega arith))

    or_loop-Within :
        (n bound : ℕ) (node : Visitable (Constant C F U)) (ks : List Token) (ctx : ParseContext)
        → length ks ≤ bound
        → 3 * length ks + 3 ≤ n
        → Within bound (or_loop C U parse_float last n node ks ctx)
    or_loop-Within zero bound node ks ctx le h = absurd (omega arith)
    or_loop-Within (suc n) bound node ks ctx le h =
        Within-branch bound (starts token_or ks) _ _
          (λ has.
            let fewer = length-rest_of token_or ks has in
            Within-bind (length (rest_of ks)) bound
              (parse_and_expression C U parse_float last n (rest_of ks) ctx) _
              (parse_and_expression-Within n (rest_of ks) ctx (omega (arith, fewer)))
              (λ out le'.
                or_loop-Within n bound (or_one node out.0) out.1 out.2 (omega (arith, fewer))
                  (omega (arith, fewer))))
          (λ lacks. le)

    parse_and_expression-Within :
        (n : ℕ) (ks : List Token) (ctx : ParseContext)
        → 3 * length ks + 4 ≤ n
        → Within (length ks) (parse_and_expression C U parse_float last n ks ctx)
    parse_and_expression-Within zero ks ctx h = absurd (omega arith)
    parse_and_expression-Within (suc n) ks ctx h =
        Within-bind (length ks) (length ks) (parse_primary C U parse_float last n ks ctx) _
          (parse_primary-Within n ks ctx (omega arith))
          (λ out le. and_loop-Within n (length ks) out.0 out.1 out.2 le (omega arith))

    and_loop-Within :
        (n bound : ℕ) (node : Visitable (Constant C F U)) (ks : List Token) (ctx : ParseContext)
        → length ks ≤ bound
        → 3 * length ks + 3 ≤ n
        → Within bound (and_loop C U parse_float last n node ks ctx)
    and_loop-Within zero bound node ks ctx le h = absurd (omega arith)
    and_loop-Within (suc n) bound node ks ctx le h =
        Within-branch bound (starts token_and ks) _ _
          (λ has.
            let fewer = length-rest_of token_and ks has in
            Within-bind (length (rest_of ks)) bound
              (parse_primary C U parse_float last n (rest_of ks) ctx) _
              (parse_primary-Within n (rest_of ks) ctx (omega (arith, fewer)))
              (λ out le'.
                and_loop-Within n bound (and_one node out.0) out.1 out.2 (omega (arith, fewer))
                  (omega (arith, fewer))))
          (λ lacks. le)

    parse_primary-Within :
        (n : ℕ) (ks : List Token) (ctx : ParseContext)
        → 3 * length ks + 3 ≤ n
        → Within (length ks) (parse_primary C U parse_float last n ks ctx)
    parse_primary-Within zero ks ctx h = absurd (omega arith)
    parse_primary-Within (suc n) ks ctx h =
        let opened = skip token_question (skip token_lbracket ks) in
        let inner = skip token_not opened in
        let shorter : length inner ≤ length ks = omega (
          arith,
          length-skip token_not opened,
          length-skip token_question (skip token_lbracket ks),
          length-skip token_lbracket ks,
        ) in
        Within-branch (length ks) (starts token_lparen inner) _ _
          (λ has.
            let fewer = length-rest_of token_lparen inner has in
            Within-bind (length (rest_of inner)) (length ks)
              (parse_expression C U parse_float last n (rest_of inner) ctx) _
              (parse_expression-Within n (rest_of inner) ctx (omega (arith, fewer, shorter)))
              (λ out le. omega (arith, fewer, shorter, length-skip token_rparen out.1)))
          (λ lacks.
            Within-bind (length inner) (length ks)
              (parse_field_access C U parse_float last n inner ctx) _
              (parse_field_access-Within n inner ctx (omega (arith, shorter)))
              (λ left le.
                Within-branch (length ks) (is_collection left.0) _ _
                  (λ is. omega (arith, le, shorter, length-skip token_rparen left.1))
                  (λ is_not. Within-list (length ks) left.1 _ _ (omega arith) (λ op more split.
                    let fewer : suc (length more) ≡ length left.1 = sym (ap length split) in
                    Within-bind (length more) (length ks)
                      (parse_value C U parse_float last more left.2) _
                      (parse_value-Within more left.2)
                      (λ right le'.
                        Within-option (length ks) (comparison op.type) _ _ tt (λ compare.
                          omega
                            (arith, fewer, le, le', shorter, length-skip token_rparen right.1)))))))

    parse_field_access-Within :
        (n : ℕ) (ks : List Token) (ctx : ParseContext)
        → 3 * length ks + 2 ≤ n
        → Within (length ks) (parse_field_access C U parse_float last n ks ctx)
    parse_field_access-Within zero ks ctx h = absurd (omega arith)
    parse_field_access-Within (suc n) ks ctx h =
        let inner = skip token_dot (skip token_at ks) in
        let chain = parse_identifier_chain inner in
        let shorter = length-parse_identifier_chain inner in
        let skipped = length-skip token_dot (skip token_at ks) in
        let skipped' = length-skip token_at ks in
        Within-list (length ks) chain.0 _ _ tt (λ name names split.
          Within-branch (length ks) (check_nested_wildcard chain.1) _ _
            (λ nested.
              let fewer = parse_identifier_chain-shorter inner name names split in
              Within-weaken (length chain.1) (length ks)
                (parse_nested_wildcard C U parse_float last n chain.1 ctx
                  (build_object_chain (scope_at C U parse_float last ks ctx)
                    (split_last name names).0)
                  (split_last name names).1)
                (omega (arith, shorter, skipped, skipped'))
                (parse_nested_wildcard-Within n chain.1 ctx
                  (build_object_chain (scope_at C U parse_float last ks ctx)
                    (split_last name names).0)
                  (split_last name names).1 (omega (arith, fewer, skipped, skipped'))))
            (λ plain. omega (arith, shorter, skipped, skipped')))

    parse_nested_wildcard-Within :
        (n : ℕ) (ks : List Token) (ctx : ParseContext) (parent : EmptiableObject (Constant C F U))
        (name : String)
        → 3 * length ks + 1 ≤ n
        → Within (length ks) (parse_nested_wildcard C U parse_float last n ks ctx parent name)
    parse_nested_wildcard-Within zero ks ctx parent name h = absurd (omega arith)
    parse_nested_wildcard-Within (suc n) ks ctx parent name h =
        Within-branch (length ks) (is_wildcard_pattern ks) _ _
          (λ is.
            let filter = after_wildcard ks in
            let fewer = length-after_wildcard ks is in
            Within-branch (length ks) (starts token_lbracket filter) _ _
              (λ has.
                Within-bind (length filter) (length ks)
                  (parse_expression C U parse_float last n filter
                    (record ctx { is_wildcard_context = true }))
                  _
                  (parse_expression-Within n filter (record ctx { is_wildcard_context = true })
                    (omega (arith, fewer)))
                  (λ out le. omega (arith, fewer)))
              (λ lacks. tt))
          (λ lacks. tt)

  expression-Halts :
      (n : ℕ) (ks : List Token) (ctx : ParseContext)
      → 3 * length ks + 5 ≤ n
      → Halts (parse_expression C U parse_float last n ks ctx)
  expression-Halts n ks ctx h =
      Halts-Within (length ks) (parse_expression C U parse_float last n ks ctx)
        (parse_expression-Within n ks ctx h)

  parse_path-Halts :
      (n : ℕ) (ks : List Token) (ctx : ParseContext)
      → fuel_for ks ≤ n
      → Halts (parse_path C U parse_float last n ks ctx)
  unfolding parse_path
  parse_path-Halts n ks ctx h =
      let chain = parse_identifier_chain (skip token_dot (skip token_dollar ks)) in
      let wild = is_wildcard_pattern chain.1 in
      let shorter : length chain.1 ≤ length ks = omega (
        arith,
        length-parse_identifier_chain (skip token_dot (skip token_dollar ks)),
        length-skip token_dot (skip token_dollar ks),
        length-skip token_dollar ks,
      ) in
      let fits = length-filter chain.1 in
      Halts-list chain.0 _ _
        (Halts-branch (starts token_lbracket chain.1) _ _
          (Halts-bind
            (parse_expression C U parse_float last n chain.1
              (record ctx { is_wildcard_context = false }))
            _
            (expression-Halts n chain.1 (record ctx { is_wildcard_context = false })
              (omega (arith, shorter)))
            (λ out. tt))
          tt)
        (λ name names.
          Halts-branch (starts token_lbracket (filter_of chain.1)) _ _
            (Halts-bind
              (parse_expression C U parse_float last n (filter_of chain.1)
                (record ctx { is_wildcard_context = wild }))
              _
              (expression-Halts n (filter_of chain.1) (record ctx { is_wildcard_context = wild })
                (omega (arith, shorter, fits)))
              (λ out. Halts-branch wild _ _ tt tt))
            tt)

module _ (C U : Type 0) {F : Type 0} (parse_float : String → F) where
  -- Parsing a template ends with a node or with a syntax error.
  pub parse-Halts : (template : String) → Halts (parse C U parse_float template)
  unfolding parse tokenize
  parse-Halts template =
      Halts-bind (tokenize_from (size template) 0 template) _
        (tokenize_from-Halts (size template) 0 template (le_refl _))
        (λ tokens.
          parse_path-Halts C U parse_float (len template) (fuel_for tokens) tokens initial
            (le_refl _))
