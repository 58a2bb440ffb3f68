-- ===== src/Jsonpath/Lexer/Totality.antt =====
-- The fuel of the lexer of asceticddd/specification/domain/jsonpath/parser.go: every pattern takes a
-- character at least.
use Prim.Native.Char.{Char, code}
use Prim.Native.String.{String, len, ◌++◌ as ◌⊕◌}
use ascetic_ddd_go.Base.{
  ℕ, zero, suc, ◌+◌, ◌<◌, ◌≤◌, ◌≡◌, refl, Bool, true, false, not, List, [], ◌∷◌, none, some, arith,
  Option-cases, Bool-cases, inl, inr,
}
use ascetic_ddd_go.Jsonpath.{
  TokenType, token_number, token_string, token_placeholder, token_identifier, token_whitespace,
  Token, Outcome, ok, syntax_error, out_of_fuel, ◌>>=◌,
}
use ascetic_ddd_go.Jsonpath.Lexer.{
  extend, strip, span, is_empty, Match, Scanned, scan_unsigned, scan_number, scan_quoted,
  scan_string, scan_format, scan_placeholder, scan_identifier, scan_space, symbols, scan_symbol,
  first_match, scan, is_whitespace, tokenize_from, size, is_quote, is_digit, is_word, is_space,
}

size-strip : (p s tail : String) → strip p s ≡ some tail → size p + size tail ≡ size s
unfolding strip size
size-strip String.[] s tail h = ground arith
size-strip (String.◌∷◌ c p) String.[] tail h = ground arith
size-strip (String.◌∷◌ c p) (String.◌∷◌ d s) tail h = ground (arith, size-strip p s tail)

size-extend :
    (b : Bool) (c : Char) (s : String) (rest : String × String)
    → size rest.0 + size rest.1 ≡ size s
    → size (extend b c s rest).0 + size (extend b c s rest).1 ≡ suc (size s)
unfolding size
size-extend true c s rest h = omega arith
size-extend false c s rest h = omega arith

size-span : (p : ℕ → Bool) (s : String) → size (span p s).0 + size (span p s).1 ≡ size s
unfolding span size
size-span p String.[] = refl
size-span p (String.◌∷◌ c s) = size-extend (p (code c)) c s (span p s) (size-span p s)

-- What follows a match is shorter by a bound at least.
abbrev pub Shorter : ℕ → Match → Type 0
Shorter bound none = Unit
Shorter bound (some (value, tail)) = size tail < bound

Shorter-weaken :
    (bound further : ℕ) (m : Match) → bound ≤ further → Shorter bound m → Shorter further m
Shorter-weaken bound further none le h = tt
Shorter-weaken bound further (some (value, tail)) le h = omega arith

size-is_empty : (s : String) → is_empty s ≡ false → 0 < size s
unfolding is_empty size
size-is_empty String.[] h = ground arith
size-is_empty (String.◌∷◌ c s) h = omega arith

scan_space-Shorter : (s : String) → Shorter (size s) (scan_space s)
unfolding scan_space
scan_space-Shorter s = ground (arith, size-span is_space s, size-is_empty (span is_space s).0)

scan_identifier-Shorter : (s : String) → Shorter (size s) (scan_identifier s)
unfolding scan_identifier size
scan_identifier-Shorter String.[] = tt
scan_identifier-Shorter (String.◌∷◌ c s) = ground (arith, size-span is_word s)

scan_format-Shorter : (before s : String) → Shorter (size s) (scan_format before s)
unfolding scan_format size
scan_format-Shorter before String.[] = tt
scan_format-Shorter before (String.◌∷◌ c s) = ground arith

scan_unsigned-Shorter : (sign s : String) → Shorter (size s) (scan_unsigned sign s)
unfolding scan_unsigned
scan_unsigned-Shorter sign s =
    let whole = span is_digit s in
    elim (Bool-cases (is_empty whole.0)) [
      | inl h ↦ ground (arith, h)
      | inr h ↦ elim (Option-cases (strip "." whole.1)) [
        | inl e ↦ ground (arith, h, e, size-span is_digit s, size-is_empty whole.0)
        | inr (tail, e) ↦ ground (
          arith,
          h,
          e,
          size-span is_digit s,
          size-is_empty whole.0,
          size-strip "." whole.1 tail,
          size-span is_digit tail,
        )
      ]
    ]

scan_number-Shorter : (s : String) → Shorter (size s) (scan_number s)
unfolding scan_number
scan_number-Shorter s = elim (Option-cases (strip "-" s)) [
  | inl e ↦ ground (arith, e, scan_unsigned-Shorter "" s)
  | inr (tail, e) ↦ ground (
    arith,
    e,
    size-strip "-" s tail,
    Shorter-weaken (size tail) (size s) (scan_unsigned "-" tail),
    scan_unsigned-Shorter "-" tail,
  )
]

scan_quoted-Shorter : (quote s : String) → 0 < size quote → Shorter (size s) (scan_quoted quote s)
unfolding scan_quoted
scan_quoted-Shorter quote s h = elim (Option-cases (strip quote s)) [
  | inl e ↦ ground (arith, e)
  | inr (tail, e) ↦
      let inside = span (λ c. not (is_quote quote c)) tail in
      elim (Option-cases (strip quote inside.1)) [
        | inl f ↦ ground (arith, e, f)
        | inr (rest, f) ↦ ground (
          arith,
          e,
          f,
          size-strip quote s tail,
          size-strip quote inside.1 rest,
          size-span (λ c. not (is_quote quote c)) tail,
        )
      ]
]

scan_string-Shorter : (s : String) → Shorter (size s) (scan_string s)
unfolding scan_string size
scan_string-Shorter s = elim (Option-cases (scan_quoted "'" s)) [
  | inl e ↦ ground (arith, e, scan_quoted-Shorter "\"" s (omega arith))
  | inr (m, e) ↦ ground (arith, e, scan_quoted-Shorter "'" s (omega arith))
]

scan_placeholder-Shorter : (s : String) → Shorter (size s) (scan_placeholder s)
unfolding scan_placeholder
scan_placeholder-Shorter s = elim (Option-cases (strip "%(" s)) [
  | inl e ↦ elim (Option-cases (strip "%" s)) [
    | inl f ↦ ground (arith, e, f)
    | inr (tail, f) ↦ ground (
      arith,
      e,
      f,
      size-strip "%" s tail,
      Shorter-weaken (size tail) (size s) (scan_format "%" tail),
      scan_format-Shorter "%" tail,
    )
  ]
  | inr (tail, e) ↦
      let name = span is_word tail in
      elim (Bool-cases (is_empty name.0)) [
        | inl h ↦ ground (arith, e, h)
        | inr h ↦ elim (Option-cases (strip ")" name.1)) [
          | inl f ↦ ground (arith, e, h, f)
          | inr (rest, f) ↦ ground (
            arith,
            e,
            h,
            f,
            size-strip "%(" s tail,
            size-strip ")" name.1 rest,
            size-span is_word tail,
            Shorter-weaken (size rest) (size s) (scan_format ("%(" ⊕ (name.0 ⊕ ")")) rest),
            scan_format-Shorter ("%(" ⊕ (name.0 ⊕ ")")) rest,
          )
        ]
      ]
]

-- ... and what a scan leaves.
abbrev pub Taken : ℕ → Scanned → Type 0
Taken bound none = Unit
Taken bound (some (t, value, tail)) = size tail < bound

Taken-Shorter :
    (bound : ℕ) (t : TokenType) (m : Match) (rest : List (TokenType × Match))
    → Shorter bound m
    → Taken bound (first_match rest)
    → Taken bound (first_match ((t, m) ∷ rest))
Taken-Shorter bound t none rest h k = k
Taken-Shorter bound t (some (value, tail)) rest h k = h

-- Each symbol is a character at least.
abbrev Solid : List (TokenType × String) → Type 0
Solid [] = Unit
Solid ((t, text) ∷ rest) = (0 < size text) × Solid rest

scan_symbol-Taken :
    (table : List (TokenType × String)) (s : String)
    → Solid table
    → Taken (size s) (scan_symbol table s)
unfolding scan_symbol
scan_symbol-Taken [] s h = tt
scan_symbol-Taken ((t, text) ∷ rest) s h = elim (Option-cases (strip text s)) [
  | inl e ↦ ground (arith, e, scan_symbol-Taken rest s h.1)
  | inr (tail, e) ↦ ground (arith, e, size-strip text s tail)
]

symbols-Solid : Solid symbols
unfolding size
symbols-Solid = ground arith

patterns-Taken :
    (s : String)
    → Taken (size s) (
        first_match (
          (token_number, scan_number s)
          ∷ (token_string, scan_string s)
          ∷ (token_placeholder, scan_placeholder s)
          ∷ (token_identifier, scan_identifier s)
          ∷ (token_whitespace, scan_space s)
          ∷ []))
patterns-Taken s = Taken-Shorter (size s) token_number (scan_number s) _ (scan_number-Shorter s) (
    Taken-Shorter (size s) token_string (scan_string s) _ (scan_string-Shorter s) (
      Taken-Shorter (size s) token_placeholder (scan_placeholder s) _ (scan_placeholder-Shorter s) (
        Taken-Shorter (size s) token_identifier (scan_identifier s) _ (scan_identifier-Shorter s)
          (Taken-Shorter (size s) token_whitespace (scan_space s) _ (scan_space-Shorter s) tt))))

scan-Taken : (s : String) → Taken (size s) (scan s)
unfolding scan
scan-Taken s = elim (Option-cases (scan_symbol symbols s)) [
  | inl e ↦ rw (e, scan) (patterns-Taken s)
  | inr (found, e) ↦ ground (arith, e, scan_symbol-Taken symbols s symbols-Solid)
]

-- A result, or an error of the program.
abbrev pub Halts : {A : Type 0} → Outcome A → Type 0
Halts (ok a) = Unit
Halts (syntax_error m p) = Unit
Halts out_of_fuel = ⊥

pub Halts-bind :
    {A B : Type 0} (m : Outcome A) (f : A → Outcome B)
    → Halts m
    → ((a : A) → Halts (f a))
    → Halts (m >>= f)
Halts-bind (ok a) f h k = k a
Halts-bind (syntax_error m p) f h k = tt
Halts-bind out_of_fuel f h k = h

pub Halts-branch :
    {A : Type 0} (b : Bool) (x y : Outcome A)
    → Halts x
    → Halts y
    → Halts (elim b [ true ↦ x | false ↦ y ])
Halts-branch true x y h k = h
Halts-branch false x y h k = k

pub Halts-list :
    {A B : Type 0} (xs : List A) (x : Outcome B) (f : A → List A → Outcome B)
    → Halts x
    → ((a : A) (more : List A) → Halts (f a more))
    → Halts (elim xs [ [] ↦ x | a ∷ more ↦ f a more ])
Halts-list [] x f h k = h
Halts-list (a ∷ more) x f h k = k a more

keep-Halts :
    (t : TokenType) (k : Token) (later : Outcome (List Token))
    → Halts later
    → Halts (elim (is_whitespace t) [ true ↦ later | false ↦ later >>= λ tokens. ok (k ∷ tokens) ])
keep-Halts t k later h =
    Halts-branch (is_whitespace t) _ _ h
      (Halts-bind later (λ tokens. ok (k ∷ tokens)) h (λ tokens. tt))

pub tokenize_from-Halts :
    (fuel position : ℕ) (s : String) → size s ≤ fuel → Halts (tokenize_from fuel position s)
unfolding tokenize_from
tokenize_from-Halts fuel position String.[] h = tt
tokenize_from-Halts zero position (String.◌∷◌ c s) h = absurd (unfold size in omega arith)
tokenize_from-Halts (suc fuel) position (String.◌∷◌ c s) h =
    let taken = scan-Taken (String.◌∷◌ c s) in
    elim (Option-cases (scan (String.◌∷◌ c s))) [
      | inl e ↦ rw (e, tokenize_from) tt
      | inr ((t, value, tail), e) ↦
          let smaller : size tail < size (String.◌∷◌ c s) = rw e at taken in
          let rec =
            tokenize_from-Halts fuel (position + len value) tail (omega (arith, h, smaller)) in
          rw (e, tokenize_from)
            (keep-Halts t (record { type = t; value = value; position = position }) _ rec)
    ]
