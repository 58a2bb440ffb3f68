-- ===== src/Sql/Rendering/Placeholders.antt =====
-- The placeholders and parameters of SQL texts of
-- asceticddd/specification/infrastructure/postgresql_visitor.go.
use Prim.Native.String.{String}
use Prim.Native.String.{◌++◌ as ◌⊕◌}
use ascetic_ddd_go.Base.{
  ℕ, zero, suc, ◌+◌, ◌≡◌, refl, sym, ap, ap₂, ◌∙◌, true, List, [], ◌∷◌, ◌++◌, Option, none, some,
  length, length-append, append-nil, arith,
}
use ascetic_ddd_go.Specification.{
  Visitable, value_node, prefix_node, infix_node, postfix_node, field_node, object, EmptiableObject,
  global_scope_node, object_node, collection_node, item_node,
}
use ascetic_ddd_go.Sql.Schema.{CollectionMapping, ForeignKeyPair}
use ascetic_ddd_go.Sql.Postgresql.{
  Piece, raw, placeholder, operator_text, get_node_precedence_key, PostgresqlVisitor, prefix_text,
  relational_mapping, extract_field_name, relational_opening, embedded_opening, key_conditions,
  accept, get_parent_ref_for_relational,
}
use ascetic_ddd_go.Sql.Rendering.{
  Site, values_of, object_values, collections_of, enclose, inner_site, alias_of, opening, render,
  render_object, site,
}
use ascetic_ddd_go.Sql.Rendering.Laws.{accept-render}

abbrev pub numbers_of : List Piece → List ℕ
numbers_of [] = []
numbers_of (raw s ∷ pieces) = numbers_of pieces
numbers_of (placeholder n ∷ pieces) = n ∷ numbers_of pieces

-- So many numbers behind a number.
abbrev pub counting : ℕ → ℕ → List ℕ
counting from zero = []
counting from (suc n) = suc from ∷ counting (suc from) n

-- The placeholders are numbered from 1 to the number of the parameters, in this order.
abbrev pub IsNumbered : {X : Type 0} → PostgresqlVisitor X → Type 0
IsNumbered v = numbers_of v.sql ≡ counting 0 (length v.parameters)

numbers_of-append : (p q : List Piece) → numbers_of (p ++ q) ≡ numbers_of p ++ numbers_of q
numbers_of-append [] q = refl
numbers_of-append (raw s ∷ p) q = numbers_of-append p q
numbers_of-append (placeholder n ∷ p) q = ap (λ ns. n ∷ ns) (numbers_of-append p q)

counting-add : (from a b : ℕ) → counting from (a + b) ≡ counting from a ++ counting (from + a) b
counting-add from zero b =
    let none_added : zero + b ≡ b = omega arith in
    let none_behind : from ≡ from + zero = omega arith in
    ap (counting from) none_added ∙ ap (λ n. counting n b) none_behind
counting-add from (suc a) b =
    let one_more : suc a + b ≡ suc (a + b) = omega arith in
    let one_behind : suc from + a ≡ from + suc a = omega arith in
    ap (counting from) one_more
    ∙ ap (λ ns. suc from ∷ ns)
        (counting-add (suc from) a b ∙ ap (λ n. counting (suc from) a ++ counting n b) one_behind)

-- Parentheses hold no placeholder.
numbers_of-enclose :
    (inner outer : ℕ) (body : List Piece) → numbers_of (enclose inner outer body) ≡ numbers_of body
numbers_of-enclose inner outer body =
    ground (arith, numbers_of-append body (raw ")" ∷ []), append-nil (numbers_of body))

numbers_of-key_conditions :
    (alias parent_ref : String) (fks : List ForeignKeyPair)
    → numbers_of (key_conditions alias parent_ref fks) ≡ []
unfolding key_conditions
numbers_of-key_conditions alias parent_ref [] = refl
numbers_of-key_conditions alias parent_ref (fk ∷ []) = refl
numbers_of-key_conditions alias parent_ref (fk ∷ next ∷ fks) =
    numbers_of-key_conditions alias parent_ref (next ∷ fks)

module _ {X : Type 0} (decimal : ℕ → String) (to_lower singular : String → String) where
  numbers_of-opening :
      (mapping : Option CollectionMapping) (s : Site) (parent : EmptiableObject X) (alias : String)
      → numbers_of (opening decimal to_lower singular mapping s parent alias) ≡ []
  unfolding relational_opening embedded_opening
  numbers_of-opening (some mapping) s parent alias =
      let parent_ref = get_parent_ref_for_relational s.schema s.in_wildcard s.wildcard_alias in
      numbers_of-append (key_conditions alias parent_ref mapping.foreign_keys) (raw " AND " ∷ [])
      ∙ ap (λ ns. ns ++ []) (numbers_of-key_conditions alias parent_ref mapping.foreign_keys)
  numbers_of-opening none s parent alias = refl

  mutual
    numbers_of-render :
        (s : Site) (e : Visitable X) (k m : ℕ)
        → numbers_of (render decimal to_lower singular s e k m) ≡ counting m (length (values_of e))
    numbers_of-render s (value_node x) k m = refl
    numbers_of-render s (field_node obj name) k m = ground arith
    numbers_of-render s (prefix_node op operand associativity) k m =
        let at = inner_site s (get_node_precedence_key op associativity) in
        numbers_of-enclose at.precedence s.precedence
          (raw (prefix_text op) ∷ render decimal to_lower singular at operand k m)
        ∙ numbers_of-render at operand k m
    numbers_of-render s (infix_node left op right associativity) k m =
        let at = inner_site s (get_node_precedence_key op associativity) in
        let first = render decimal to_lower singular at left k m in
        let second =
          render decimal to_lower singular at right (k + collections_of left)
            (m + length (values_of left)) in
        let middle = raw (" " ⊕ (operator_text op ⊕ " ")) in
        numbers_of-enclose at.precedence s.precedence (first ++ middle ∷ second)
        ∙ numbers_of-append first (middle ∷ second)
        ∙ ap₂ (λ x y. x ++ y) (numbers_of-render at left k m)
            (numbers_of-render at right (k + collections_of left) (m + length (values_of left)))
        ∙ sym (counting-add m (length (values_of left)) (length (values_of right)))
        ∙ ap (counting m) (sym (length-append (values_of left) (values_of right)))
    numbers_of-render s (postfix_node operand op associativity) k m =
        let at = inner_site s (get_node_precedence_key op associativity) in
        let body = render decimal to_lower singular at operand k m in
        numbers_of-enclose at.precedence s.precedence (body ++ raw (" " ⊕ operator_text op) ∷ [])
        ∙ numbers_of-append body (raw (" " ⊕ operator_text op) ∷ [])
        ∙ append-nil (numbers_of body)
        ∙ numbers_of-render at operand k m
    numbers_of-render s (object obj) k m = numbers_of-render_object s obj k m

    numbers_of-render_object :
        (s : Site) (obj : EmptiableObject X) (k m : ℕ)
        → numbers_of (render_object decimal to_lower singular s obj k m)
          ≡ counting m (length (object_values obj))
    numbers_of-render_object s global_scope_node k m = refl
    numbers_of-render_object s (object_node parent name) k m = refl
    numbers_of-render_object s item_node k m = refl
    numbers_of-render_object s (collection_node parent name predicate) k m =
        let mapping = relational_mapping s.schema (extract_field_name parent) in
        let alias = alias_of decimal to_lower singular mapping parent (suc k) in
        let front = opening decimal to_lower singular mapping s parent alias in
        let at = record s { in_wildcard = true; wildcard_alias = alias } in
        let body = render decimal to_lower singular at predicate (suc k) m in
        numbers_of-append front (body ++ raw ")" ∷ [])
        ∙ ap₂ (λ x y. x ++ y) (numbers_of-opening mapping s parent alias)
            (numbers_of-append body (raw ")" ∷ []) ∙ append-nil (numbers_of body))
        ∙ numbers_of-render at predicate (suc k) m

  -- If the placeholders of the text are numbered from 1 to the number of the parameters, in this
  -- order, they are so after any expression is visited, and the parameters are those before with
  -- the values of the expression, from left to right, behind them.
  pub accept-IsNumbered :
      (e : Visitable X) (v : PostgresqlVisitor X)
      → IsNumbered v
      → IsNumbered (accept decimal to_lower singular e v)
        × ((accept decimal to_lower singular e v).parameters ≡ v.parameters ++ values_of e)
  accept-IsNumbered e v h =
      let pieces =
        render decimal to_lower singular (site v) e v.wildcard_counter (length v.parameters) in
      let ran = accept-render decimal to_lower singular e v in
      let old = length v.parameters in
      let from_zero : old ≡ 0 + old = omega arith in
      (
        ap (λ w. numbers_of w.sql) ran
            ∙ numbers_of-append v.sql pieces
            ∙ ap₂ (λ x y. x ++ y) h (numbers_of-render (site v) e v.wildcard_counter old)
            ∙ ap (λ n. counting 0 old ++ counting n (length (values_of e))) from_zero
            ∙ sym (counting-add 0 old (length (values_of e)))
            ∙ ap (counting 0) (sym (length-append v.parameters (values_of e)))
            ∙ ap (λ w. counting 0 (length w.parameters)) (sym ran),
        ap (λ w. w.parameters) ran,
      )
