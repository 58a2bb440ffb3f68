-- ===== src/Jsonpath/Binding.antt =====
-- asceticddd/specification/domain/jsonpath/parser.go: the placeholders of a template, the binding of
-- parameters to them, and `Match`. The name of a positional placeholder, the decimal text of its
-- number, is the number.
pub mod Templates
use Prim.Native.Char.{Char, code}
use Prim.Native.String.{String, len}
use Prim.Native.String.{◌++◌ as ◌⊕◌}
use ascetic_ddd_go.Base.{
  ℕ, zero, suc, ◌+◌, Bool, true, false, if◌then◌else◌, List, [], ◌∷◌, ◌++◌, Option, none, some,
  get_elem?,
}
use ascetic_ddd_go.Specification.{
  Visitable, value_node, prefix_node, infix_node, postfix_node, field_node, object, EmptiableObject,
  collection_node, wildcard,
}
use ascetic_ddd_go.Specification.Operators.{Any, some_other, Result}
use ascetic_ddd_go.Specification.Evaluation.{
  Datum, plain, EvaluateVisitor, new_evaluate_visitor, accept, result,
}
use ascetic_ddd_go.Specification.Operators.{◌>>=◌}
use ascetic_ddd_go.Specification.Registry.{Values, OperatorRegistry}
use ascetic_ddd_go.Jsonpath.Lexer.{strip, span, is_empty, is_word, is_format, size}
use ascetic_ddd_go.Jsonpath.Parser.{Literal, placeholder_marker, Constant}

-- With the format's character.
pub data PlaceholderInfo : Type 0 where
  named : String → Char → PlaceholderInfo
  positional : ℕ → Char → PlaceholderInfo

unfoldable pub match_format : String → Option Char
match_format String.[] = none
match_format (String.◌∷◌ c s) = if is_format (code c) then some c else none

-- `%\((\w+)\)([sdf])` at the start of a text: the name and the format.
unfoldable pub match_named : String → Option (String × Char)
match_named s = elim (strip "%(" s) [
  | none ↦ none
  | some tail ↦
      let name = span is_word tail in
      if is_empty name.0 then none else elim (strip ")" name.1) [
        | none ↦ none
        | some rest ↦ elim (match_format rest) [ none ↦ none | some format ↦ some (name.0, format) ]
      ]
]

-- `%([sdf])` at the start of a text.
unfoldable pub match_positional : String → Option Char
match_positional s = elim (strip "%" s) [ none ↦ none | some tail ↦ match_format tail ]

-- All named placeholders of a text, and the text without them. The number counts the characters of
-- the last match that are still to be passed.
unfoldable pub find_named : ℕ → String → List PlaceholderInfo × String
find_named passed String.[] = ([], String.[])
find_named (suc passed) (String.◌∷◌ c s) = find_named passed s
find_named zero (String.◌∷◌ c s) = elim (match_named (String.◌∷◌ c s)) [
  | some (name, format) ↦
      let later = find_named (size name + 3) s in (named name format ∷ later.0, later.1)
  | none ↦ let later = find_named 0 s in (later.0, String.◌∷◌ c later.1)
]

-- All positional placeholders of a text, numbered from a number on.
unfoldable pub find_positional : ℕ → ℕ → String → List PlaceholderInfo
find_positional position passed String.[] = []
find_positional position (suc passed) (String.◌∷◌ c s) = find_positional position passed s
find_positional position zero (String.◌∷◌ c s) = elim (match_positional (String.◌∷◌ c s)) [
  | some format ↦ positional position format ∷ find_positional (suc position) 1 s
  | none ↦ find_positional position 0 s
]

unfoldable pub extract_placeholders : String → List PlaceholderInfo
extract_placeholders template =
    let names = find_named 0 template in names.0 ++ find_positional 0 0 names.1

-- A map of parameters by name, as Go's `map[string]any` reads.
abbrev pub NamedParams : Type 0 → Type 0
NamedParams X = String → Option X

module _ {C F U : Type 0} (infos : List PlaceholderInfo) (params : List (Constant C F U))
    (named_params : NamedParams (Constant C F U)) where
  -- `none` keeps the marker.
  unfoldable pub parameter : PlaceholderInfo → Option (Constant C F U)
  parameter (positional index format) = get_elem? params index
  parameter (named name format) = named_params name

  unfoldable pub bind_marker : ℕ → Option (Constant C F U)
  bind_marker index = elim (get_elem? infos index) [ none ↦ none | some info ↦ parameter info ]

  unfoldable pub bind_placeholder : Constant C F U → Constant C F U
  bind_placeholder (some_other (plain (placeholder_marker index))) = elim (bind_marker index) [
    | none ↦ some_other (plain (placeholder_marker index))
    | some x ↦ x
  ]
  bind_placeholder x = x

  -- A collection is rebuilt by `Wildcard`, the other objects and fields are kept.
  unfoldable pub bind_values_in_ast : Visitable (Constant C F U) → Visitable (Constant C F U)
  bind_values_in_ast (value_node x) = value_node (bind_placeholder x)
  bind_values_in_ast (infix_node left op right associativity) =
      infix_node (bind_values_in_ast left) op (bind_values_in_ast right) associativity
  bind_values_in_ast (prefix_node op operand associativity) =
      prefix_node op (bind_values_in_ast operand) associativity
  bind_values_in_ast (object (collection_node parent name predicate)) =
      object (wildcard parent (bind_values_in_ast predicate))
  bind_values_in_ast node = node

-- The parsed template.
pub record NativeParametrizedSpecification (X : Type 0) : Type 0 where
  pub placeholder_info : List PlaceholderInfo
  pub ast : Visitable X
  pub is_wildcard : Bool

module _ {E C F U Ty : Type 0} (get : C → String → Result E (Constant C F U))
    (values : Values (Datum C (Literal F U)) Ty)
    (registry : OperatorRegistry E (Datum C (Literal F U)) Ty) where
  unfoldable pub match_internal :
      NativeParametrizedSpecification (Constant C F U)
      → C
      → List (Constant C F U)
      → NamedParams (Constant C F U)
      → Result E Bool
  match_internal p context params named_params = do
    visitor ←
        accept get values registry (bind_values_in_ast p.placeholder_info params named_params p.ast)
          (new_evaluate_visitor context)
    result visitor
