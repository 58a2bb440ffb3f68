-- ===== src/Jsonpath/Parser/Grouping.antt =====
-- Parentheses in templates of asceticddd/specification/domain/jsonpath/parser.go.
use Prim.Native.String.{String}
use ascetic_ddd_go.Base.{
  ℕ, zero, suc, ◌+◌, ◌≤◌, ◌≡◌, refl, Bool, true, false, List, [], arith, length,
}
use ascetic_ddd_go.Specification.{Visitable, or_one}
use ascetic_ddd_go.Jsonpath.{
  token_lbracket, token_rbracket, token_lparen, token_rparen, token_dollar, token_question,
  token_or, Token, ok,
}
use ascetic_ddd_go.Jsonpath.Parser.{
  Constant, starts, skip, negate_if, parse_expression, or_loop, parse_and_expression, and_loop,
  parse_primary, parse_path, initial,
}
use ascetic_ddd_go.Jsonpath.Parser.Printing.{
  Comparison, put, put_not, put_comparison, put_ands, index_behind, ands_behind, context,
  operand_value, comparison_node, ands_node, not_if,
}
use ascetic_ddd_go.Jsonpath.Parser.RoundTrip.{and_loop-put_ands}
use ascetic_ddd_go.Jsonpath.Parser.RoundTrip.Comparisons.{
  bind-ok, parse_identifier_chain-put_bracket, parse_primary_unskipped,
}

module _ (place : List Token → ℕ) (C U : Type 0) {F : Type 0} (parse_float : String → F)
    (last : ℕ) where
  abbrev end : List Token
  end = put place token_rbracket "]" []

  -- `a || b) && c…]`
  abbrev pub put_inside : Comparison → Comparison → List Comparison → List Token
  put_inside a b cs = put_comparison place a (
      put place token_or "||"
        (put_comparison place b (put place token_rparen ")" (put_ands place cs end))))

  -- `[?(a || b) && c…]` and `[?!(a || b) && c…]`
  abbrev pub put_group : Bool → Comparison → Comparison → List Comparison → List Token
  put_group negated a b cs = put place token_lbracket "[" (
      put place token_question "?"
        (put_not place negated (put place token_lparen "(" (put_inside a b cs))))

  abbrev pub node_at : Comparison → ℕ → Visitable (Constant C F U)
  node_at c i = comparison_node (operand_value C U parse_float) false c i

  abbrev pub group_node : Comparison → Comparison → List Comparison → Visitable (Constant C F U)
  group_node a b cs =
      let i = index_behind a.operand 0 in
      or_one (node_at a 0) (
        ands_node (operand_value C U parse_float) false (node_at b i) cs (index_behind b.operand i))

  abbrev index_after : Comparison → Comparison → List Comparison → ℕ
  index_after a b cs = ands_behind cs (index_behind b.operand (index_behind a.operand 0))

  parse_and_expression-inside :
      (n : ℕ) (b : Comparison) (cs : List Comparison) (i : ℕ)
      → length cs + 4 ≤ n
      → parse_and_expression C U parse_float last n
          (put_comparison place b (put place token_rparen ")" (put_ands place cs end)))
          (context false i)
        ≡ ok (
          ands_node
              (operand_value C U parse_float)
              false
              (node_at b i)
              cs
              (index_behind b.operand i),
          end,
          context false (ands_behind cs (index_behind b.operand i)),
        )
  unfolding parse_and_expression skip starts
  parse_and_expression-inside zero b cs i h = absurd (omega arith)
  parse_and_expression-inside (suc n) b cs i h =
      bind-ok
        (parse_primary C U parse_float last n
          (put_comparison place b (put place token_rparen ")" (put_ands place cs end)))
          (context false i))
        _
        (parse_primary_unskipped place C U parse_float last false n b
          (put place token_rparen ")" (put_ands place cs end)) i (omega arith))
        (and_loop-put_ands place C U parse_float last false n (node_at b i) cs end
          (index_behind b.operand i) (omega arith) refl refl)

  parse_expression-put_inside :
      (n : ℕ) (a b : Comparison) (cs : List Comparison)
      → length cs + 7 ≤ n
      → parse_expression C U parse_float last n (put_inside a b cs) (context false 0)
        ≡ ok (group_node a b cs, end, context false (index_after a b cs))
  unfolding parse_expression parse_and_expression or_loop and_loop starts skip
  parse_expression-put_inside zero a b cs h = absurd (omega arith)
  parse_expression-put_inside (suc zero) a b cs h = absurd (omega arith)
  parse_expression-put_inside (suc (suc zero)) a b cs h = absurd (omega arith)
  parse_expression-put_inside (suc (suc (suc n))) a b cs h =
      let behind = put_comparison place b (put place token_rparen ")" (put_ands place cs end)) in
      bind-ok
        (parse_and_expression C U parse_float last (suc (suc n)) (put_inside a b cs)
          (context false 0))
        _
        (bind-ok (parse_primary C U parse_float last (suc n) (put_inside a b cs) (context false 0))
          _
          (parse_primary_unskipped place C U parse_float last false (suc n) a
            (put place token_or "||" behind) 0 (omega arith))
          refl)
        (bind-ok
          (parse_and_expression C U parse_float last (suc n) behind
            (context false (index_behind a.operand 0)))
          _ (parse_and_expression-inside (suc n) b cs (index_behind a.operand 0) (omega arith))
          refl)

  parse_primary-put_group :
      (n : ℕ) (negated : Bool) (a b : Comparison) (cs : List Comparison)
      → length cs + 8 ≤ n
      → parse_primary C U parse_float last n (put_group negated a b cs) (context false 0)
        ≡ ok (not_if negated (group_node a b cs), end, context false (index_after a b cs))
  unfolding parse_primary starts skip negate_if
  parse_primary-put_group zero negated a b cs h = absurd (omega arith)
  parse_primary-put_group (suc n) true a b cs h =
      bind-ok (parse_expression C U parse_float last n (put_inside a b cs) (context false 0)) _
        (parse_expression-put_inside n a b cs (omega arith)) refl
  parse_primary-put_group (suc n) false a b cs h =
      bind-ok (parse_expression C U parse_float last n (put_inside a b cs) (context false 0)) _
        (parse_expression-put_inside n a b cs (omega arith)) refl

  parse_expression-put_group :
      (n : ℕ) (negated : Bool) (a b : Comparison) (cs : List Comparison)
      → length cs + 10 ≤ n
      → parse_expression C U parse_float last n (put_group negated a b cs) (context false 0)
        ≡ ok (not_if negated (group_node a b cs), end, context false (index_after a b cs))
  unfolding parse_expression parse_and_expression or_loop and_loop starts
  parse_expression-put_group zero negated a b cs h = absurd (omega arith)
  parse_expression-put_group (suc zero) negated a b cs h = absurd (omega arith)
  parse_expression-put_group (suc (suc zero)) negated a b cs h = absurd (omega arith)
  parse_expression-put_group (suc (suc (suc n))) negated a b cs h =
      bind-ok
        (parse_and_expression C U parse_float last (suc (suc n)) (put_group negated a b cs)
          (context false 0))
        _
        (bind-ok
          (parse_primary C U parse_float last (suc n) (put_group negated a b cs) (context false 0))
          _ (parse_primary-put_group (suc n) negated a b cs (omega arith)) refl)
        refl

  -- With fuel for the conjunction, $[?(a || b) && c] with comparisons a, b and any list c of
  -- comparisons is parsed as a || (b && c), and with a negation in front of the parenthesis as
  -- !(a || (b && c)): the closing parenthesis is taken by b.
  pub parse_path-put_group :
      (n : ℕ) (negated : Bool) (a b : Comparison) (cs : List Comparison)
      → length cs + 10 ≤ n
      → parse_path C U parse_float last n
          (put place token_dollar "$" (put_group negated a b cs))
          initial
        ≡ ok (not_if negated (group_node a b cs), false)
  unfolding parse_path skip starts
  parse_path-put_group n negated a b cs h =
      let chain =
        parse_identifier_chain-put_bracket place "[" token_question "?"
          (put_not place negated (put place token_lparen "(" (put_inside a b cs))) in
      rw (chain, chain, chain, parse_path)
        (bind-ok
          (parse_expression C U parse_float last n (put_group negated a b cs) (context false 0)) _
          (parse_expression-put_group n negated a b cs h) refl)
