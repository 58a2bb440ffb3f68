-- ===== src/Jsonpath/Tests.antt =====
-- Templates of JSONPath, and each property of the parser of
-- asceticddd/specification/domain/jsonpath/parser.go at one.
use Prim.Native.String.{String}
use ascetic_ddd_go.Base.{
  ℕ, ◌≡◌, refl, true, false, List, [], ◌∷◌, none, some, ℕ_discrete, arith, length,
}
use native.Mathlib.Nat.{le_refl}
use ascetic_ddd_go.Specification.{
  object, wildcard, object_node, field_node, global_scope_node, item_node, greater_than, value_node,
}
use ascetic_ddd_go.Specification.Operators.{nil, bool, some_other, Result, ok, ◌>>=◌}
use ascetic_ddd_go.Specification.Registry.{Values, OperatorRegistry, new_operator_registry}
use ascetic_ddd_go.Specification.Evaluation.{Datum, plain}
use ascetic_ddd_go.Specification.Semantics.Scoping.{denote, as_bool}
use ascetic_ddd_go.Jsonpath.{token_dollar, Token, Outcome}
use ascetic_ddd_go.Jsonpath.Lexer.{
  tokenize, tokenize_from, size, scan, span, strip, scan_symbol, scan_number, scan_unsigned,
  scan_string, scan_quoted, scan_placeholder, scan_format, scan_identifier, scan_space, is_empty,
}
use ascetic_ddd_go.Jsonpath.Lexer.Totality.{Halts}
use ascetic_ddd_go.Jsonpath.Parser.{
  Literal, integer, placeholder_marker, Constant, constant, parse, parse_path, fuel_for, initial,
  parse_expression, skip, starts, parse_identifier_chain, is_wildcard_pattern, split_last,
  build_object_chain, scope_at, check_nested_wildcard, is_collection, parse_value, token_constant,
  comparison, negate_if,
}
use ascetic_ddd_go.Jsonpath.Parser.Totality.{parse-Halts}
use ascetic_ddd_go.Jsonpath.Parser.Printing.{
  Comparison, Conjunction, Disjunction, Template, specification, collection, eq, gt, lte, quoted,
  placeholder, put, put_template, template_node, operand_value, not_if,
}
use ascetic_ddd_go.Jsonpath.Parser.RoundTrip.{parse_path-put_template}
use ascetic_ddd_go.Jsonpath.Parser.Grouping.{put_group, group_node, parse_path-put_group}
use ascetic_ddd_go.Jsonpath.Binding.{
  named, positional, NativeParametrizedSpecification, extract_placeholders, find_named,
  find_positional, match_named, match_positional, match_format, match_internal,
}
use ascetic_ddd_go.Jsonpath.Binding.Templates.{numbered, argument_value, match_internal-denote}

data Missing : Type 0 where
  missing : Missing

-- Contexts, floats and other values are numbers.
abbrev Value : Type 0
Value = Constant ℕ ℕ ℕ

abbrev to_float : String → ℕ
to_float s = 0

abbrev is_old : Comparison
is_old = record {
  negated = false;
  name = "person";
  more = "age" ∷ [];
  relation = gt;
  operand = placeholder "%d";
}

abbrev is_called : Comparison
is_called = record {
  negated = true;
  name = "name";
  more = [];
  relation = eq;
  operand = quoted "Bob";
}

abbrev is_young : Comparison
is_young = record {
  negated = false;
  name = "age";
  more = [];
  relation = lte;
  operand = placeholder "%d";
}

abbrev both : Conjunction
both = record { first = is_old; others = is_called ∷ [] }

abbrev young : Conjunction
young = record { first = is_young; others = [] }

abbrev either : Disjunction
either = record { first = both; others = young ∷ [] }

abbrev people : Template
people = collection "store" ("people" ∷ []) either

-- Every token stands as far from the end as there are tokens behind it.
abbrev place : List Token → ℕ
place tokens = length tokens

parse-Halts_example :
    Halts (parse ℕ ℕ to_float "$.store.people[*][?@.age > %d || !(@.name == 'Bob')]")
parse-Halts_example =
    parse-Halts ℕ ℕ to_float "$.store.people[*][?@.age > %d || !(@.name == 'Bob')]"

parse_path-put_template_example :
    parse_path ℕ ℕ to_float 50
      (fuel_for (put_template place people))
      (put_template place people)
      initial
    ≡ Outcome.ok (template_node (operand_value ℕ ℕ to_float) people, true)
parse_path-put_template_example =
    parse_path-put_template place ℕ ℕ to_float 50 (fuel_for (put_template place people)) people
      (le_refl _)

parse_path-put_group_example :
    parse_path ℕ ℕ to_float 40 20
      (put place token_dollar "$"
        (put_group place ℕ ℕ to_float 40 true is_old is_called (is_young ∷ [])))
      initial
    ≡ Outcome.ok
        (not_if true (group_node place ℕ ℕ to_float 40 is_old is_called (is_young ∷ [])), false)
parse_path-put_group_example =
    parse_path-put_group place ℕ ℕ to_float 40 20 true is_old is_called (is_young ∷ [])
      (omega arith)

-- The one field of a context is its number.
abbrev get : ℕ → String → Result Missing Value
get c name = ok (some_other (plain (integer false c)))

abbrev type_of : Value → ℕ
type_of nil = 0
type_of (bool b) = 1
type_of (some_other x) = 2

abbrev values : Values (Datum ℕ (Literal ℕ ℕ)) ℕ
values = record {
  type_of = type_of;
  same_type = ℕ_discrete;
  equal = λ x. none;
  greater_than = λ x. none;
  greater_than_equal = λ x. none;
  less_than = λ x. none;
  less_than_equal = λ x. none;
}

abbrev registry : OperatorRegistry Missing (Datum ℕ (Literal ℕ ℕ)) ℕ
registry = new_operator_registry

abbrev adults : Template
adults = specification either

abbrev parsed : NativeParametrizedSpecification Value
parsed = record {
  placeholder_info =
      extract_placeholders "$[?@.person.age > %d && !@.name == 'Bob' || @.age <= %d]";
  ast = template_node (operand_value ℕ ℕ to_float) adults;
  is_wildcard = false;
}

abbrev arguments : List Value
arguments = constant (integer false 65) ∷ constant (integer false 18) ∷ []

listed : parsed.placeholder_info ≡ numbered 0 ("d" ∷ "d" ∷ [])
unfolding extract_placeholders find_named find_positional match_named match_positional match_format
    strip span is_empty size
listed = refl

match_internal-denote_example :
    match_internal get values registry parsed 20 arguments (λ name. none) ≡ (
      denote get values registry
        (template_node (argument_value ℕ ℕ to_float arguments) adults)
        (some 20)
        none
      >>= as_bool)
match_internal-denote_example =
    match_internal-denote get values registry parsed to_float adults ("d" ∷ "d" ∷ []) arguments
      (λ name. none) 20 refl listed (omega arith)

-- `%d` and `%(x)s` in one template: the first of the list is the named one.
mixed : extract_placeholders "%d %(x)s" ≡ named "x" "s" ∷ positional 0 "d" ∷ []
unfolding extract_placeholders find_named find_positional match_named match_positional match_format
    strip span is_empty size
mixed = refl

-- A template from its text: the predicate of a wildcard, with its parameter.
parsed_text :
    parse ℕ ℕ to_float "$.xs[*][?@.n > %d]"
    ≡ Outcome.ok (
      object (
          wildcard (object_node global_scope_node "xs") (
            greater_than
              (field_node item_node "n")
              (value_node (constant (placeholder_marker 0))))),
      true,
    )
unfolding parse tokenize tokenize_from size scan scan_symbol strip scan_number scan_unsigned
    scan_string scan_quoted scan_placeholder scan_format scan_identifier scan_space span is_empty
    parse_path parse_expression skip starts parse_identifier_chain is_wildcard_pattern split_last
    build_object_chain scope_at check_nested_wildcard is_collection parse_value token_constant
    comparison negate_if wildcard greater_than
parsed_text = refl
