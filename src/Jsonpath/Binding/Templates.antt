-- ===== src/Jsonpath/Binding/Templates.antt =====
-- Parameters bound to the placeholders of templates of
-- asceticddd/specification/domain/jsonpath/parser.go, and what such a specification means.
use Prim.Native.Char.{Char}
use Prim.Native.String.{String}
use ascetic_ddd_go.Base.{
  ℕ, zero, suc, ◌+◌, ◌≤◌, ◌≡◌, refl, sym, ap, ap₂, fun_ext, ◌∙◌, Bool, true, false, List, [], ◌∷◌,
  Option, none, some, arith, length, Bool-cases, ◌^◌, ◌-◌, get_elem?, Option-cases, inl, inr,
}
use ascetic_ddd_go.Specification.{
  Visitable, value_node, EmptiableObject, global_scope_node, object_node, and_one, or_one, not_,
  wildcard, equal, not_equal, greater_than, less_than, greater_than_equal, less_than_equal,
}
use ascetic_ddd_go.Specification.Operators.{Result, ◌>>=◌}
use ascetic_ddd_go.Specification.Registry.{Values, OperatorRegistry}
use ascetic_ddd_go.Specification.Evaluation.{Datum, accept, new_evaluate_visitor, result}
use ascetic_ddd_go.Specification.Semantics.Scoping.{denote, as_bool, accept-denote}
use ascetic_ddd_go.Jsonpath.Lexer.{strip}
use ascetic_ddd_go.Jsonpath.Parser.{
  Literal, placeholder_marker, Constant, constant, number, atoi, signed, contains_dot, decimal,
  clamp,
}
use ascetic_ddd_go.Jsonpath.Parser.Printing.{
  Relation, eq, ne, gt, lt, gte, lte, Operand, numeral, quoted, placeholder, word, null, Comparison,
  Conjunction, Disjunction, Template, specification, collection, index_behind, conjunction_behind,
  relation_node, field_of, collection_of, not_if, operand_value, scope, comparison_node, ands_node,
  conjunction_node, ors_node, disjunction_node, template_node,
}
use ascetic_ddd_go.Jsonpath.Parser.Shape.{template_node-IsUnnested}
use ascetic_ddd_go.Jsonpath.Binding.{
  PlaceholderInfo, positional, NamedParams, bind_marker, parameter, bind_placeholder,
  bind_values_in_ast, NativeParametrizedSpecification, match_internal,
}

-- The placeholders of a template that names none, from a number on.
abbrev pub numbered : ℕ → List Char → List PlaceholderInfo
numbered position [] = []
numbered position (format ∷ formats) = positional position format ∷ numbered (suc position) formats

-- Below the number of the placeholders, each has its own index.
get_elem-numbered :
    {X : Type 0} (formats : List Char) (position i : ℕ) (f : PlaceholderInfo → Option X)
    (g : ℕ → Option X)
    → ((index : ℕ) (format : Char) → f (positional index format) ≡ g index)
    → (length formats ≤ i → g (position + i) ≡ none)
    → elim (get_elem? (numbered position formats) i) [ none ↦ none | some info ↦ f info ]
      ≡ g (position + i)
get_elem-numbered [] position i f g h k = sym (k (omega arith))
get_elem-numbered (format ∷ formats) position zero f g h k = h position format ∙ ap g (omega arith)
get_elem-numbered (format ∷ formats) position (suc i) f g h k =
    let shift : suc position + i ≡ position + suc i = omega arith in
    get_elem-numbered formats (suc position) i f g h (λ le. ap g shift ∙ k (omega (arith, le)))
    ∙ ap g shift

get_elem-beyond : {A : Type 0} (xs : List A) (i : ℕ) → length xs ≤ i → get_elem? xs i ≡ none
get_elem-beyond [] i h = refl
get_elem-beyond (x ∷ xs) zero h = absurd (omega arith)
get_elem-beyond (x ∷ xs) (suc i) h = get_elem-beyond xs i (omega arith)

-- An operand with the parameters in place of the placeholders.
abbrev pub argument_value :
    (C U : Type 0) {F : Type 0}
    → (String → F)
    → List (Constant C F U)
    → Operand
    → ℕ
    → Constant C F U
argument_value C U parse_float params (placeholder s) index = elim (get_elem? params index) [
  | some x ↦ x
  | none ↦ constant (placeholder_marker index)
]
argument_value C U parse_float params operand index = operand_value C U parse_float operand index

module _ {C F U : Type 0} (infos : List PlaceholderInfo) (params : List (Constant C F U))
    (named_params : NamedParams (Constant C F U)) (value : Operand → ℕ → Constant C F U)
    (inside : Bool) where
  abbrev bind : Visitable (Constant C F U) → Visitable (Constant C F U)
  bind node = bind_values_in_ast infos params named_params node

  abbrev bound : Operand → ℕ → Constant C F U
  bound operand index = bind_placeholder infos params named_params (value operand index)

  bind-relation_node :
      (r : Relation) (left right : Visitable (Constant C F U))
      → bind (relation_node r left right) ≡ relation_node r (bind left) (bind right)
  unfolding bind_values_in_ast equal not_equal greater_than less_than greater_than_equal
      less_than_equal
  bind-relation_node eq left right = refl
  bind-relation_node ne left right = refl
  bind-relation_node gt left right = refl
  bind-relation_node lt left right = refl
  bind-relation_node gte left right = refl
  bind-relation_node lte left right = refl

  bind-field_of :
      (parent : EmptiableObject (Constant C F U)) (name : String) (more : List String)
      → bind (field_of parent name more) ≡ field_of parent name more
  unfolding bind_values_in_ast
  bind-field_of parent name [] = refl
  bind-field_of parent name (next ∷ names) = bind-field_of (object_node parent name) next names

  bind-not_if :
      (b : Bool) (node : Visitable (Constant C F U)) → bind (not_if b node) ≡ not_if b (bind node)
  unfolding bind_values_in_ast not_
  bind-not_if true node = refl
  bind-not_if false node = refl

  bind-comparison_node :
      (c : Comparison) (i : ℕ)
      → bind (comparison_node value inside c i) ≡ comparison_node bound inside c i
  unfolding bind_values_in_ast
  bind-comparison_node c i =
      let field = field_of (scope value inside) c.name c.more in
      bind-not_if c.negated (relation_node c.relation field (value_node (value c.operand i)))
      ∙ ap (not_if c.negated) (
          bind-relation_node c.relation field (value_node (value c.operand i))
          ∙ ap (λ f. relation_node c.relation f (value_node (bound c.operand i)))
              (bind-field_of (scope value inside) c.name c.more))

  bind-ands_node :
      (node node' : Visitable (Constant C F U)) (cs : List Comparison) (i : ℕ)
      → bind node ≡ node'
      → bind (ands_node value inside node cs i) ≡ ands_node bound inside node' cs i
  unfolding bind_values_in_ast and_one
  bind-ands_node node node' [] i h = h
  bind-ands_node node node' (c ∷ cs) i h =
      bind-ands_node (and_one node (comparison_node value inside c i))
        (and_one node' (comparison_node bound inside c i)) cs (index_behind c.operand i)
        (ap₂ and_one h (bind-comparison_node c i))

  bind-conjunction_node :
      (e : Conjunction) (i : ℕ)
      → bind (conjunction_node value inside e i) ≡ conjunction_node bound inside e i
  bind-conjunction_node e i =
      bind-ands_node (comparison_node value inside e.first i)
        (comparison_node bound inside e.first i) e.others (index_behind e.first.operand i)
        (bind-comparison_node e.first i)

  bind-ors_node :
      (node node' : Visitable (Constant C F U)) (es : List Conjunction) (i : ℕ)
      → bind node ≡ node'
      → bind (ors_node value inside node es i) ≡ ors_node bound inside node' es i
  unfolding bind_values_in_ast or_one
  bind-ors_node node node' [] i h = h
  bind-ors_node node node' (e ∷ es) i h =
      bind-ors_node (or_one node (conjunction_node value inside e i))
        (or_one node' (conjunction_node bound inside e i)) es (conjunction_behind e i)
        (ap₂ or_one h (bind-conjunction_node e i))

  bind-disjunction_node :
      (d : Disjunction) → bind (disjunction_node value inside d) ≡ disjunction_node bound inside d
  bind-disjunction_node d =
      bind-ors_node (conjunction_node value inside d.first 0)
        (conjunction_node bound inside d.first 0) d.others (conjunction_behind d.first 0)
        (bind-conjunction_node d.first 0)

  bind-collection_of :
      (parent : EmptiableObject (Constant C F U)) (name : String) (more : List String)
      (predicate : Visitable (Constant C F U))
      → bind (collection_of parent name more predicate)
        ≡ collection_of parent name more (bind predicate)
  unfolding bind_values_in_ast wildcard
  bind-collection_of parent name [] predicate = refl
  bind-collection_of parent name (next ∷ names) predicate =
      bind-collection_of (object_node parent name) next names predicate

module _ {C F U : Type 0} where
  bind-template_node :
      (infos : List PlaceholderInfo) (params : List (Constant C F U))
      (named_params : NamedParams (Constant C F U)) (value : Operand → ℕ → Constant C F U)
      (t : Template)
      → bind_values_in_ast infos params named_params (template_node value t)
        ≡ template_node
            (λ operand index. bind_placeholder infos params named_params (value operand index))
            t
  bind-template_node infos params named_params value (specification d) =
      bind-disjunction_node infos params named_params value false d
  bind-template_node infos params named_params value (collection name more d) =
      bind-collection_of infos params named_params value true global_scope_node name more
        (disjunction_node value true d)
      ∙ ap (collection_of global_scope_node name more)
          (bind-disjunction_node infos params named_params value true d)

  -- What is no marker is kept.
  bind-signed :
      (infos : List PlaceholderInfo) (params : List (Constant C F U))
      (named_params : NamedParams (Constant C F U)) (negative : Bool) (n : ℕ)
      → bind_placeholder infos params named_params (constant (signed negative n))
        ≡ constant (signed negative n)
  unfolding bind_placeholder signed
  bind-signed infos params named_params negative zero = refl
  bind-signed infos params named_params negative (suc n) = refl

  bind-number :
      (infos : List PlaceholderInfo) (params : List (Constant C F U))
      (named_params : NamedParams (Constant C F U)) (parse_float : String → F) (s : String)
      → bind_placeholder infos params named_params (constant (number parse_float s))
        ≡ constant (number parse_float s)
  unfolding number atoi bind_placeholder
  bind-number infos params named_params parse_float s = elim (Bool-cases (contains_dot s)) [
    | inl h ↦ ground (arith, h)
    | inr h ↦ elim (Option-cases (strip "-" s)) [
      | inl at ↦ ground (
        arith,
        h,
        at,
        bind-signed infos params named_params false (clamp (2 ^ 63 - 1) (decimal 0 s)),
      )
      | inr (digits, at) ↦ ground (
        arith,
        h,
        at,
        bind-signed infos params named_params true (clamp (2 ^ 63) (decimal 0 digits)),
      )
    ]
  ]

  bind-operand_value :
      (formats : List Char) (params : List (Constant C F U))
      (named_params : NamedParams (Constant C F U)) (parse_float : String → F)
      → length params ≤ length formats
      → (operand : Operand) (index : ℕ)
      → bind_placeholder
          (numbered 0 formats)
          params
          named_params
          (operand_value C U parse_float operand index)
        ≡ argument_value C U parse_float params operand index
  unfolding bind_placeholder bind_marker parameter
  bind-operand_value formats params named_params parse_float h (numeral s) index =
      bind-number (numbered 0 formats) params named_params parse_float s
  bind-operand_value formats params named_params parse_float h (quoted s) index = refl
  bind-operand_value formats params named_params parse_float h (placeholder s) index =
      let g : ℕ → Option (Constant C F U) = get_elem? params in
      let at : 0 + index ≡ index = omega arith in
      ap (λ o. elim o [ none ↦ constant (placeholder_marker index) | some x ↦ x ])
        (get_elem-numbered formats 0 index (parameter (numbered 0 formats) params named_params) g
            (λ i format. refl) (λ le. ap g at ∙ get_elem-beyond params index (omega (arith, le, h)))
          ∙ ap g at)
  bind-operand_value formats params named_params parse_float h (word b) index = refl
  bind-operand_value formats params named_params parse_float h null index = refl

module _ {E C F U Ty : Type 0} (get : C → String → Result E (Constant C F U))
    (values : Values (Datum C (Literal F U)) Ty)
    (registry : OperatorRegistry E (Datum C (Literal F U)) Ty) where
  -- If a specification holds the tree of a template and the list of its placeholders, none of
  -- them named, and there are no more parameters than placeholders, then matching a context
  -- answers what the scoped semantics says of the template with the parameters in place of the
  -- placeholders, in the order of the text; an error is the same error.
  pub match_internal-denote :
      (p : NativeParametrizedSpecification (Constant C F U)) (parse_float : String → F)
      (t : Template) (formats : List Char) (params : List (Constant C F U))
      (named_params : NamedParams (Constant C F U)) (context : C)
      → p.ast ≡ template_node (operand_value C U parse_float) t
      → p.placeholder_info ≡ numbered 0 formats
      → length params ≤ length formats
      → match_internal get values registry p context params named_params ≡ (
          denote get values registry
            (template_node (argument_value C U parse_float params) t)
            (some context)
            none
          >>= as_bool)
  unfolding match_internal
  match_internal-denote p parse_float t formats params named_params context parsed listed fits =
      let bound : bind_values_in_ast p.placeholder_info params named_params p.ast
          ≡ template_node (argument_value C U parse_float params) t =
        ap₂ (λ infos ast. bind_values_in_ast infos params named_params ast) listed parsed
        ∙ bind-template_node (numbered 0 formats) params named_params
            (operand_value C U parse_float) t
        ∙ ap (λ value. template_node value t)
            (fun_ext (λ operand. fun_ext (λ index.
              bind-operand_value formats params named_params parse_float fits operand index))) in
      ap (λ ast. accept get values registry ast (new_evaluate_visitor context) >>= result) bound
      ∙ accept-denote get values registry (template_node (argument_value C U parse_float params) t)
          context (template_node-IsUnnested (argument_value C U parse_float params) t)
