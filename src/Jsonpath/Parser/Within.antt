-- ===== src/Jsonpath/Parser/Within.antt =====
-- How many tokens the parser of asceticddd/specification/domain/jsonpath/parser.go leaves.
use Prim.Native.String.{String}
use ascetic_ddd_go.Base.{
  ℕ, suc, ◌+◌, ◌≤◌, ◌≡◌, refl, Bool, true, false, List, [], ◌∷◌, Option, none, some, arith, length,
  if◌then◌else◌,
}
use ascetic_ddd_go.Specification.{Visitable}
use ascetic_ddd_go.Jsonpath.{TokenType, Token, ok, syntax_error, out_of_fuel, ◌>>=◌}
use ascetic_ddd_go.Jsonpath.Lexer.Totality.{Halts}
use ascetic_ddd_go.Jsonpath.Parser.{
  ParseContext, Parsed, starts, skip, rest_of, after_wildcard, is_wildcard_pattern,
  parse_identifier_chain,
}

-- A result or an error of the program, with no more tokens left than a bound.
abbrev pub Within : {X : Type 0} → ℕ → Parsed X → Type 0
Within bound (ok out) = length out.1 ≤ bound
Within bound (syntax_error m p) = Unit
Within bound out_of_fuel = ⊥

pub Within-bind :
    {X : Type 0} (bound further : ℕ) (m : Parsed X)
    (f : Visitable X × List Token × ParseContext → Parsed X)
    → Within bound m
    → ((out : Visitable X × List Token × ParseContext)
        → length out.1 ≤ bound
        → Within further (f out))
    → Within further (m >>= f)
Within-bind bound further (ok out) f h k = k out h
Within-bind bound further (syntax_error m p) f h k = tt
Within-bind bound further out_of_fuel f h k = h

pub Within-weaken :
    {X : Type 0} (bound further : ℕ) (m : Parsed X)
    → bound ≤ further
    → Within bound m
    → Within further m
Within-weaken bound further (ok out) le h = omega arith
Within-weaken bound further (syntax_error m p) le h = tt
Within-weaken bound further out_of_fuel le h = h

pub Within-branch :
    {X : Type 0} (bound : ℕ) (b : Bool) (x y : Parsed X)
    → (b ≡ true → Within bound x)
    → (b ≡ false → Within bound y)
    → Within bound (elim b [ true ↦ x | false ↦ y ])
Within-branch bound true x y h k = h refl
Within-branch bound false x y h k = k refl

pub Within-list :
    {A X : Type 0} (bound : ℕ) (xs : List A) (x : Parsed X) (f : A → List A → Parsed X)
    → Within bound x
    → ((a : A) (more : List A) → xs ≡ a ∷ more → Within bound (f a more))
    → Within bound (elim xs [ [] ↦ x | a ∷ more ↦ f a more ])
Within-list bound [] x f h k = h
Within-list bound (a ∷ more) x f h k = k a more refl

pub Within-option :
    {A X : Type 0} (bound : ℕ) (o : Option A) (x : Parsed X) (f : A → Parsed X)
    → Within bound x
    → ((a : A) → Within bound (f a))
    → Within bound (elim o [ none ↦ x | some a ↦ f a ])
Within-option bound none x f h k = h
Within-option bound (some a) x f h k = k a

pub length-skip : (t : TokenType) (ks : List Token) → length (skip t ks) ≤ length ks
unfolding skip
length-skip t [] = omega arith
length-skip t (k ∷ ks) = ground arith

pub length-rest_of :
    (t : TokenType) (ks : List Token) → starts t ks ≡ true → suc (length (rest_of ks)) ≡ length ks
unfolding starts
length-rest_of t [] h = ground arith
length-rest_of t (k ∷ ks) h = refl

pub length-rest_of_le : (ks : List Token) → length (rest_of ks) ≤ length ks
length-rest_of_le [] = omega arith
length-rest_of_le (k ∷ ks) = omega arith

pub length-after_wildcard :
    (ks : List Token) → is_wildcard_pattern ks ≡ true → 3 + length (after_wildcard ks) ≤ length ks
unfolding is_wildcard_pattern starts
length-after_wildcard [] h = ground arith
length-after_wildcard (a ∷ []) h = ground arith
length-after_wildcard (a ∷ b ∷ []) h = ground arith
length-after_wildcard (a ∷ b ∷ c ∷ ks) h = omega arith

pub length-parse_identifier_chain :
    (ks : List Token) → length (parse_identifier_chain ks).1 ≤ length ks
unfolding parse_identifier_chain
length-parse_identifier_chain [] = omega arith
length-parse_identifier_chain (k ∷ []) = ground arith
length-parse_identifier_chain (k ∷ d ∷ []) = ground arith
length-parse_identifier_chain (k ∷ d ∷ i ∷ rest) =
    ground (arith, length-parse_identifier_chain (i ∷ rest))

pub parse_identifier_chain-shorter :
    (ks : List Token) (name : String) (names : List String)
    → (parse_identifier_chain ks).0 ≡ name ∷ names
    → suc (length (parse_identifier_chain ks).1) ≤ length ks
unfolding parse_identifier_chain
parse_identifier_chain-shorter [] name names h = ground arith
parse_identifier_chain-shorter (k ∷ []) name names h = ground arith
parse_identifier_chain-shorter (k ∷ d ∷ []) name names h = ground arith
parse_identifier_chain-shorter (k ∷ d ∷ i ∷ rest) name names h =
    ground (arith, length-parse_identifier_chain (i ∷ rest))

abbrev pub filter_of : List Token → List Token
filter_of ks = if is_wildcard_pattern ks then after_wildcard ks else ks

pub length-filter : (ks : List Token) → length (filter_of ks) ≤ length ks
length-filter ks = ground (arith, length-after_wildcard ks)

pub Halts-Within : {X : Type 0} (bound : ℕ) (m : Parsed X) → Within bound m → Halts m
Halts-Within bound (ok out) h = tt
Halts-Within bound (syntax_error m p) h = tt
Halts-Within bound out_of_fuel h = h
