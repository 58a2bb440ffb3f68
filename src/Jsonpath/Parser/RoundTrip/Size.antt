-- ===== src/Jsonpath/Parser/RoundTrip/Size.antt =====
-- How many tokens a template of asceticddd/specification/domain/jsonpath/parser.go has.
use Prim.Native.String.{String}
use ascetic_ddd_go.Base.{ℕ, suc, ◌+◌, ◌≤◌, Bool, true, false, List, [], ◌∷◌, arith, length}
use ascetic_ddd_go.Jsonpath.{token_rbracket, Token}
use ascetic_ddd_go.Jsonpath.Parser.{fuel_for}
use ascetic_ddd_go.Jsonpath.Parser.Printing.{
  Operand, numeral, quoted, placeholder, word, null, Comparison, Conjunction, Disjunction, put,
  put_names, put_operand, put_relation, put_field, put_comparison, put_not, put_ands, put_ors,
  put_filter,
}

-- The conjunctions of a list, with their comparisons.
abbrev pub ors_size : List Conjunction → ℕ
ors_size [] = 0
ors_size (e ∷ es) = suc (length e.others + ors_size es)

module _ (place : List Token → ℕ) where
  pub length-put_names :
      (name : String) (more : List String) (rest : List Token)
      → length rest ≤ length (put_names place name more rest)
  length-put_names name [] rest = omega arith
  length-put_names name (next ∷ names) rest = omega (arith, length-put_names next names rest)

  length-put_operand :
      (o : Operand) (rest : List Token) → length rest ≤ length (put_operand place o rest)
  length-put_operand (numeral s) rest = omega arith
  length-put_operand (quoted s) rest = omega arith
  length-put_operand (placeholder s) rest = omega arith
  length-put_operand (word true) rest = omega arith
  length-put_operand (word false) rest = omega arith
  length-put_operand null rest = omega arith

  length-put_not : (b : Bool) (rest : List Token) → length rest ≤ length (put_not place b rest)
  length-put_not true rest = omega arith
  length-put_not false rest = omega arith

  pub length-put_comparison :
      (c : Comparison) (rest : List Token) → 3 + length rest ≤ length (put_comparison place c rest)
  length-put_comparison c rest =
      let relation = put_relation place c.relation c.operand rest in
      omega (
        arith,
        length-put_operand c.operand rest,
        length-put_names c.name c.more relation,
        length-put_not c.negated (put_field place c.name c.more relation),
      )

  pub length-put_ands :
      (cs : List Comparison) (rest : List Token)
      → length cs + length rest ≤ length (put_ands place cs rest)
  length-put_ands [] rest = omega arith
  length-put_ands (c ∷ cs) rest =
      omega (arith, length-put_ands cs rest, length-put_comparison c (put_ands place cs rest))

  pub length-put_ors :
      (es : List Conjunction) (rest : List Token)
      → ors_size es + length rest ≤ length (put_ors place es rest)
  length-put_ors [] rest = omega arith
  length-put_ors (e ∷ es) rest =
      let behind = put_ors place es rest in
      omega (
        arith,
        length-put_ors es rest,
        length-put_ands e.others behind,
        length-put_comparison e.first (put_ands place e.others behind),
      )

  -- The fuel of a template is enough for its filter.
  pub fuel_for-put_filter :
      (d : Disjunction)
      → length d.first.others + ors_size d.others + 7 ≤ fuel_for (put_filter place d)
  fuel_for-put_filter d =
      let end = put place token_rbracket "]" [] in
      let behind = put_ors place d.others end in
      omega (
        arith,
        length-put_ors d.others end,
        length-put_ands d.first.others behind,
        length-put_comparison d.first.first (put_ands place d.first.others behind),
      )
