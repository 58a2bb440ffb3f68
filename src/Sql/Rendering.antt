-- ===== src/Sql/Rendering.antt =====
-- SQL text without the state of the visitor of
-- asceticddd/specification/infrastructure/postgresql_visitor.go: what an expression adds to it.
pub mod Laws
pub mod Placeholders
pub mod Nesting
use Prim.Native.String.{String}
use Prim.Native.String.{◌++◌ as ◌⊕◌}
use ascetic_ddd_go.Base.{
  ℕ, zero, suc, ◌+◌, ◌≡◌, refl, sym, ap, ap₂, ◌∙◌, Bool, true, false, ◌&&◌, if◌then◌else◌, ltb,
  List, [], ◌∷◌, ◌++◌, Option, none, some, length, length-append, append-nil, append_assoc,
  Bool-cases, Option-cases, inl, inr, arith,
}
use ascetic_ddd_go.Specification.{
  Visitable, value_node, prefix_node, infix_node, postfix_node, field_node, object, EmptiableObject,
  global_scope_node, object_node, collection_node, item_node, extract_field_path,
}
use ascetic_ddd_go.Specification.Operators.{Operator}
use ascetic_ddd_go.Sql.Schema.{SchemaRegistry, CollectionMapping}
use ascetic_ddd_go.Sql.Postgresql.{
  Piece, raw, placeholder, operator_text, get_node_precedence_key, inner_precedence,
  PostgresqlVisitor, join, is_item_reference, prefix_text, relational_mapping, relational_opening,
  embedded_opening, get_parent_ref_for_relational, extract_field_name, write, visit, visit_value,
  visit_field, leave, embedded_alias, relational_alias, enter_embedded, enter_relational,
  enter_collection, accept, accept_object,
}

-- What the text of an expression depends on: the precedence around it and the wildcard it is in.
pub record Site : Type 0 where
  pub precedence : ℕ
  pub in_wildcard : Bool
  pub wildcard_alias : String
  pub schema : Option SchemaRegistry

-- The parameters of an expression, from left to right, and the number of its collections.
abbrev mutual
  pub values_of : {X : Type 0} → Visitable X → List X
  values_of (value_node x) = x ∷ []
  values_of (prefix_node op operand _) = values_of operand
  values_of (infix_node left op right _) = values_of left ++ values_of right
  values_of (postfix_node operand op _) = values_of operand
  values_of (field_node obj name) = []
  values_of (object obj) = object_values obj

  pub object_values : {X : Type 0} → EmptiableObject X → List X
  object_values (collection_node parent name predicate) = values_of predicate
  object_values _ = []

abbrev mutual
  pub collections_of : {X : Type 0} → Visitable X → ℕ
  collections_of (value_node x) = 0
  collections_of (prefix_node op operand _) = collections_of operand
  collections_of (infix_node left op right _) = collections_of left + collections_of right
  collections_of (postfix_node operand op _) = collections_of operand
  collections_of (field_node obj name) = 0
  collections_of (object obj) = object_collections obj

  pub object_collections : {X : Type 0} → EmptiableObject X → ℕ
  object_collections (collection_node parent name predicate) = suc (collections_of predicate)
  object_collections _ = 0

-- In parentheses if the operator binds weaker than the one around it.
abbrev pub enclose : ℕ → ℕ → List Piece → List Piece
enclose inner outer body = if ltb inner outer then raw "(" ∷ (body ++ raw ")" ∷ []) else body

abbrev pub inner_site : Site → String → Site
inner_site s key = record s { precedence = inner_precedence key s.precedence }

abbrev pub enclose_at : Site → String → List Piece → List Piece
enclose_at s key body = enclose (inner_precedence key s.precedence) s.precedence body

module _ {X : Type 0} (decimal : ℕ → String) (to_lower singular : String → String) where
  -- The alias of the collection, counted by `counter`, and the text in front of its predicate, with
  -- the mapping of the collection if it has a table of its own.
  abbrev pub alias_of : Option CollectionMapping → EmptiableObject X → ℕ → String
  alias_of (some mapping) parent counter =
      relational_alias decimal to_lower singular mapping parent counter
  alias_of none parent counter = embedded_alias decimal to_lower singular parent counter

  abbrev pub opening : Option CollectionMapping → Site → EmptiableObject X → String → List Piece
  opening (some mapping) s parent alias =
      relational_opening mapping
        (get_parent_ref_for_relational s.schema s.in_wildcard s.wildcard_alias) alias
  opening none s parent alias = embedded_opening parent s.in_wildcard s.wildcard_alias alias

  abbrev mutual
    -- The text of an expression behind a number of collections and of parameters.
    pub render : Site → Visitable X → ℕ → ℕ → List Piece
    render s (value_node x) k m = placeholder (suc m) ∷ []
    render s (field_node obj name) k m =
        if s.in_wildcard && is_item_reference obj
        then raw s.wildcard_alias ∷ raw "." ∷ raw name ∷ []
        else raw (join (extract_field_path obj name)) ∷ []
    render s (prefix_node op operand associativity) k m =
        let key = get_node_precedence_key op associativity in
        enclose_at s key (raw (prefix_text op) ∷ render (inner_site s key) operand k m)
    render s (infix_node left op right associativity) k m =
        let key = get_node_precedence_key op associativity in
        enclose_at s key (
          render (inner_site s key) left k m
          ++ raw (" " ⊕ (operator_text op ⊕ " "))
            ∷ render (inner_site s key) right (k + collections_of left)
                (m + length (values_of left)))
    render s (postfix_node operand op associativity) k m =
        let key = get_node_precedence_key op associativity in
        enclose_at s key
          (render (inner_site s key) operand k m ++ raw (" " ⊕ operator_text op) ∷ [])
    render s (object obj) k m = render_object s obj k m

    pub render_object : Site → EmptiableObject X → ℕ → ℕ → List Piece
    render_object s global_scope_node k m = []
    render_object s (object_node parent name) k m = []
    render_object s item_node k m = []
    render_object s (collection_node parent name predicate) k m =
        let mapping = relational_mapping s.schema (extract_field_name parent) in
        let alias = alias_of mapping parent (suc k) in
        opening mapping s parent alias
        ++ (render (record s { in_wildcard = true; wildcard_alias = alias }) predicate (suc k) m
            ++ raw ")" ∷ [])

abbrev pub site : {X : Type 0} → PostgresqlVisitor X → Site
site v = record {
  precedence = v.precedence;
  in_wildcard = v.in_wildcard;
  wildcard_alias = v.wildcard_alias;
  schema = v.schema;
}

-- A visitor that has written more, with more parameters and collections.
abbrev pub extend :
    {X : Type 0} → PostgresqlVisitor X → List Piece → List X → ℕ → PostgresqlVisitor X
extend v pieces parameters collections = record v {
  sql = v.sql ++ pieces;
  parameters = v.parameters ++ parameters;
  wildcard_counter = v.wildcard_counter + collections;
}
