-- ===== src/Sql/Rendering/Nesting.antt =====
-- Nested operators in SQL texts of
-- asceticddd/specification/infrastructure/postgresql_visitor.go.
use Prim.Native.String.{String}
use Prim.Native.String.{◌++◌ as ◌⊕◌}
use ascetic_ddd_go.Base.{
  ℕ, ◌+◌, ◌≡◌, refl, sym, ap, ap₂, ◌∙◌, List, ◌∷◌, ◌++◌, length, length-append, append_assoc,
  Option-cases, inl, inr, arith,
}
use ascetic_ddd_go.Specification.{Visitable, infix_node, Associativity}
use ascetic_ddd_go.Specification.Operators.{Operator}
use ascetic_ddd_go.Sql.Postgresql.{
  Piece, raw, operator_text, get_node_precedence_key, inner_precedence, find_precedence,
  precedence_mapping, PostgresqlVisitor, accept,
}
use ascetic_ddd_go.Sql.Rendering.{
  Site, values_of, collections_of, enclose, inner_site, render, site,
}
use ascetic_ddd_go.Sql.Rendering.Laws.{accept-render, with-equal}

-- The precedence of an operator does not depend on what is around it.
inner_precedence-constant :
    (key : String) (p q : ℕ) → inner_precedence key p ≡ inner_precedence key q
unfolding inner_precedence find_precedence
inner_precedence-constant key p q = elim (Option-cases (find_precedence key precedence_mapping)) [
  | inl h ↦ rw (h, inner_precedence) refl
  | inr (r, h) ↦ rw (h, inner_precedence) refl
]

enclose_same : (p : ℕ) (body : List Piece) → enclose p p body ≡ body
enclose_same p body = ground arith

abbrev key : Operator → Associativity → String
key op associativity = get_node_precedence_key op associativity

abbrev middle : Operator → Piece
middle op = raw (" " ⊕ (operator_text op ⊕ " "))

module _ {X : Type 0} (decimal : ℕ → String) (to_lower singular : String → String) (op : Operator)
    (associativity : Associativity) where
  -- Two operands with the operator between them.
  abbrev joined : Site → Visitable X → Visitable X → ℕ → ℕ → List Piece
  joined s a b k m =
      render decimal to_lower singular s a k m
      ++ middle op
        ∷ render decimal to_lower singular s b (k + collections_of a) (m + length (values_of a))

  -- Below the same operator, no parentheses are written.
  render_nested :
      (s : Site) (a b : Visitable X) (k m : ℕ)
      → render decimal to_lower singular
          (inner_site s (key op associativity))
          (infix_node a op b associativity)
          k
          m
        ≡ joined (inner_site s (key op associativity)) a b k m
  render_nested s a b k m =
      let at = inner_site s (key op associativity) in
      ap (λ p. enclose p at.precedence (joined (record at { precedence = p }) a b k m))
        (inner_precedence-constant (key op associativity) at.precedence s.precedence)
      ∙ enclose_same at.precedence (joined at a b k m)

  -- Of an operator and an associativity, a op (b op c) is compiled to the same text and
  -- parameters as (a op b) op c, whatever the operator: also for -, / and %.
  pub accept-regroup :
      (a b c : Visitable X) (v : PostgresqlVisitor X)
      → accept decimal to_lower singular
          (infix_node a op (infix_node b op c associativity) associativity)
          v
        ≡ accept decimal to_lower singular
            (infix_node (infix_node a op b associativity) op c associativity)
            v
  accept-regroup a b c v =
      let right = infix_node a op (infix_node b op c associativity) associativity in
      let left = infix_node (infix_node a op b associativity) op c associativity in
      let k = v.wildcard_counter in
      let m = length v.parameters in
      let at = inner_site (site v) (key op associativity) in
      let first = render decimal to_lower singular at a k m in
      let second =
        render decimal to_lower singular at b (k + collections_of a) (m + length (values_of a)) in
      let third : ℕ → ℕ → List Piece = render decimal to_lower singular at c in
      let counted : k + collections_of a + collections_of b
          ≡ k + (collections_of a + collections_of b) =
        omega arith in
      let listed : m + length (values_of a) + length (values_of b)
          ≡ m + length (values_of a ++ values_of b) =
        omega (arith, length-append (values_of a) (values_of b)) in
      let regrouped : k + (collections_of a + (collections_of b + collections_of c))
          ≡ k + (collections_of a + collections_of b + collections_of c) =
        omega arith in
      accept-render decimal to_lower singular right v
      ∙ with-equal v
          (ap (λ body. v.sql ++ enclose at.precedence v.precedence body)
            (ap (λ body. first ++ middle op ∷ body)
                (render_nested (site v) b c (k + collections_of a) (m + length (values_of a)))
              ∙ sym (
                  append_assoc first (middle op ∷ second) (
                    middle op
                    ∷ third (k + collections_of a + collections_of b)
                        (m + length (values_of a) + length (values_of b))))
              ∙ ap₂ (λ x y. (first ++ middle op ∷ second) ++ middle op ∷ third x y) counted listed
              ∙ ap
                  (λ body.
                    body
                    ++ middle op
                      ∷ third (k + (collections_of a + collections_of b))
                          (m + length (values_of a ++ values_of b)))
                  (sym (render_nested (site v) a b k m))))
          (ap (λ x. v.parameters ++ x)
            (sym (append_assoc (values_of a) (values_of b) (values_of c))))
          regrouped
      ∙ sym (accept-render decimal to_lower singular left v)
