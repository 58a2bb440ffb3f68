-- ===== src/Specification/Operators.antt =====
-- asceticddd/specification/domain/operators/operators.go, and the values that operators work on.
use ascetic_ddd_go.Base.{Bool}

-- The source's operators are strings; these are its constants.
pub data Operator : Type 0 where
  op_eq op_gt op_lt op_gte op_lte op_ne op_is op_and op_or op_not op_add op_sub op_mul op_div op_mod
        op_pos op_neg op_lshift op_rshift op_is_null op_is_not_null :
      Operator

pub Operator-discrete : Discrete Operator
Operator-discrete = hlevel

-- Go's `any`, taken apart as far as the code does: `nil`, a bool, and everything else.
pub data Any (X : Type 0) : Type 0 where
  nil : Any X
  bool : Bool → Any X
  some_other : X → Any X

-- What can go wrong, over the errors `E` of operator functions and contexts. A panic is a result
-- of its own.
pub data Error (E : Type 0) : Type 0 where
  unsupported_binary unsupported_unary requires_bool left_operand right_operand : Operator → Error E
  not_collection not_bool panic : Error E
  other_error : E → Error E

pub data Result (E A : Type 0) : Type 0 where
  ok : A → Result E A
  err : Error E → Result E A

infixl 5 ◌>>=◌
abbrev pub ◌>>=◌ : {E A B : Type 0} → Result E A → (A → Result E B) → Result E B
ok a >>= f = f a
err e >>= f = err e
