-- ===== src/Jsonpath/Parser/Printing.antt =====
-- Templates of asceticddd/specification/domain/jsonpath/parser.go as a syntax of their own, printed
-- as tokens: disjunctions of conjunctions of comparisons, and what they mean as nodes.
use Prim.Native.String.{String}
use ascetic_ddd_go.Base.{ℕ, suc, Bool, true, false, List, [], ◌∷◌, if◌then◌else◌}
use ascetic_ddd_go.Specification.{
  Visitable, value_node, object, EmptiableObject, global_scope_node, object_node, item_node,
  field_node, equal, not_equal, greater_than, less_than, greater_than_equal, less_than_equal, not_,
  and_one, or_one, wildcard,
}
use ascetic_ddd_go.Specification.Operators.{nil, bool}
use ascetic_ddd_go.Jsonpath.{
  TokenType, token_lbracket, token_rbracket, token_dot, token_dollar, token_at, token_question,
  token_wildcard, token_and, token_or, token_eq, token_ne, token_gte, token_lte, token_gt, token_lt,
  token_not, token_number, token_string, token_placeholder, token_identifier, Token,
}
use ascetic_ddd_go.Jsonpath.Parser.{
  placeholder_marker, text, Constant, constant, number, ParseContext,
}

pub data Relation : Type 0 where
  eq ne gt lt gte lte : Relation

pub data Operand : Type 0 where
  numeral quoted placeholder : String → Operand
  word : Bool → Operand
  null : Operand

-- `[!]@.name.more… relation operand`
pub record Comparison : Type 0 where
  pub negated : Bool
  pub name : String
  pub more : List String
  pub relation : Relation
  pub operand : Operand

pub record Conjunction : Type 0 where
  pub first : Comparison
  pub others : List Comparison

pub record Disjunction : Type 0 where
  pub first : Conjunction
  pub others : List Conjunction

-- `$[?…]` and `$.name.more…[*][?…]`
pub data Template : Type 0 where
  specification : Disjunction → Template
  collection : String → List String → Disjunction → Template

abbrev pub relation_type : Relation → TokenType
relation_type eq = token_eq
relation_type ne = token_ne
relation_type gt = token_gt
relation_type lt = token_lt
relation_type gte = token_gte
relation_type lte = token_lte

abbrev pub relation_text : Relation → String
relation_text eq = "=="
relation_text ne = "!="
relation_text gt = ">"
relation_text lt = "<"
relation_text gte = ">="
relation_text lte = "<="

abbrev pub close_quote : String → String
close_quote String.[] = "'"
close_quote (String.◌∷◌ c s) = String.◌∷◌ c (close_quote s)

-- The tokens, each at a position that may depend on all tokens behind it.
module _ (place : List Token → ℕ) where
  abbrev pub put : TokenType → String → List Token → List Token
  put t v rest = record { type = t; value = v; position = place rest } ∷ rest

  abbrev pub put_names : String → List String → List Token → List Token
  put_names name [] rest = put token_identifier name rest
  put_names name (next ∷ names) rest =
      put token_identifier name (put token_dot "." (put_names next names rest))

  abbrev pub put_operand : Operand → List Token → List Token
  put_operand (numeral s) rest = put token_number s rest
  put_operand (quoted s) rest = put token_string (String.◌∷◌ "'" (close_quote s)) rest
  put_operand (placeholder s) rest = put token_placeholder s rest
  put_operand (word true) rest = put token_identifier "true" rest
  put_operand (word false) rest = put token_identifier "false" rest
  put_operand null rest = put token_identifier "null" rest

  abbrev pub put_relation : Relation → Operand → List Token → List Token
  put_relation relation operand rest =
      put (relation_type relation) (relation_text relation) (put_operand operand rest)

  abbrev pub put_field : String → List String → List Token → List Token
  put_field name more rest = put token_at "@" (put token_dot "." (put_names name more rest))

  abbrev pub put_not : Bool → List Token → List Token
  put_not true rest = put token_not "!" rest
  put_not false rest = rest

  abbrev pub put_comparison : Comparison → List Token → List Token
  put_comparison c rest =
      put_not c.negated (put_field c.name c.more (put_relation c.relation c.operand rest))

  abbrev pub put_ands : List Comparison → List Token → List Token
  put_ands [] rest = rest
  put_ands (c ∷ cs) rest = put token_and "&&" (put_comparison c (put_ands cs rest))

  abbrev pub put_conjunction : Conjunction → List Token → List Token
  put_conjunction e rest = put_comparison e.first (put_ands e.others rest)

  abbrev pub put_ors : List Conjunction → List Token → List Token
  put_ors [] rest = rest
  put_ors (e ∷ es) rest = put token_or "||" (put_conjunction e (put_ors es rest))

  abbrev pub put_disjunction : Disjunction → List Token → List Token
  put_disjunction d rest = put_conjunction d.first (put_ors d.others rest)

  -- `[?…]`
  abbrev pub put_filter : Disjunction → List Token
  put_filter d =
      put token_lbracket "["
        (put token_question "?" (put_disjunction d (put token_rbracket "]" [])))

  abbrev pub put_template : Template → List Token
  put_template (specification d) = put token_dollar "$" (put_filter d)
  put_template (collection name more d) = put token_dollar "$" (
      put token_dot "." (
        put_names name more (
          put token_lbracket "[" (put token_wildcard "*" (put token_rbracket "]" (put_filter d))))))

-- The index of the placeholder behind an operand, by the index in front of it.
abbrev pub index_behind : Operand → ℕ → ℕ
index_behind (placeholder s) index = suc index
index_behind _ index = index

abbrev pub ands_behind : List Comparison → ℕ → ℕ
ands_behind [] index = index
ands_behind (c ∷ cs) index = ands_behind cs (index_behind c.operand index)

abbrev pub conjunction_behind : Conjunction → ℕ → ℕ
conjunction_behind e index = ands_behind e.others (index_behind e.first.operand index)

abbrev pub ors_behind : List Conjunction → ℕ → ℕ
ors_behind [] index = index
ors_behind (e ∷ es) index = ors_behind es (conjunction_behind e index)

abbrev pub context : Bool → ℕ → ParseContext
context inside index = record { placeholder_bind_index = index; is_wildcard_context = inside }

module _ {X : Type 0} where
  abbrev pub relation_node : Relation → Visitable X → Visitable X → Visitable X
  relation_node eq = equal
  relation_node ne = not_equal
  relation_node gt = greater_than
  relation_node lt = less_than
  relation_node gte = greater_than_equal
  relation_node lte = less_than_equal

  abbrev pub field_of : EmptiableObject X → String → List String → Visitable X
  field_of parent name [] = field_node parent name
  field_of parent name (next ∷ names) = field_of (object_node parent name) next names

  abbrev pub collection_of : EmptiableObject X → String → List String → Visitable X → Visitable X
  collection_of parent name [] predicate = object (wildcard (object_node parent name) predicate)
  collection_of parent name (next ∷ names) predicate =
      collection_of (object_node parent name) next names predicate

  abbrev pub not_if : Bool → Visitable X → Visitable X
  not_if true node = not_ node
  not_if false node = node

-- What a template means: the first placeholder has the given index, inside a collection or not.
abbrev pub operand_value : (C U : Type 0) {F : Type 0} → (String → F) → Operand → ℕ → Constant C F U
operand_value C U parse_float (numeral s) index = constant (number parse_float s)
operand_value C U parse_float (quoted s) index = constant (text s)
operand_value C U parse_float (placeholder s) index = constant (placeholder_marker index)
operand_value C U parse_float (word b) index = bool b
operand_value C U parse_float null index = nil

module _ {X : Type 0} (value : Operand → ℕ → X) (inside : Bool) where
  abbrev pub scope : EmptiableObject X
  scope = if inside then item_node else global_scope_node

  abbrev pub comparison_node : Comparison → ℕ → Visitable X
  comparison_node c index =
      not_if c.negated (
        relation_node c.relation (field_of scope c.name c.more)
          (value_node (value c.operand index)))

  abbrev pub ands_node : Visitable X → List Comparison → ℕ → Visitable X
  ands_node node [] index = node
  ands_node node (c ∷ cs) index =
      ands_node (and_one node (comparison_node c index)) cs (index_behind c.operand index)

  abbrev pub conjunction_node : Conjunction → ℕ → Visitable X
  conjunction_node e index =
      ands_node (comparison_node e.first index) e.others (index_behind e.first.operand index)

  abbrev pub ors_node : Visitable X → List Conjunction → ℕ → Visitable X
  ors_node node [] index = node
  ors_node node (e ∷ es) index =
      ors_node (or_one node (conjunction_node e index)) es (conjunction_behind e index)

  abbrev pub disjunction_node : Disjunction → Visitable X
  disjunction_node d = ors_node (conjunction_node d.first 0) d.others (conjunction_behind d.first 0)

abbrev pub is_collection_template : Template → Bool
is_collection_template (specification d) = false
is_collection_template (collection name more d) = true

abbrev pub template_node : {X : Type 0} → (Operand → ℕ → X) → Template → Visitable X
template_node value (specification d) = disjunction_node value false d
template_node value (collection name more d) =
    collection_of global_scope_node name more (disjunction_node value true d)
