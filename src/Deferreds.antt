-- ===== src/Deferreds.antt =====
-- asceticddd/deferred/deferred.go: deferreds with their handlers, as a tree. `Then` makes the next
-- deferred, which only its handler holds, so that a tree has no sharing. Values have one type `V`,
-- errors one type `E`; callbacks are functions and reach no deferred. `All` is not modelled, since
-- its callbacks do.
pub mod Laws
mod Tests
use ascetic_ddd_go.Base.{Bool, true, false, if◌then◌else◌, List, [], ◌∷◌, ◌++◌, Option, none, some}

-- What a callback returns, and what settles a deferred.
pub data Attempt (V E : Type 0) : Type 0 where
  returned : V → Attempt V E
  failed : E → Attempt V E

-- The fields of `DeferredImp` but the handlers; a zero value is `none`.
pub record Fields (V E : Type 0) : Type 0 where
  pub value : Option V
  pub err : Option E
  pub occurred_err : List E
  pub is_resolved : Bool
  pub is_rejected : Bool

mutual
  pub data Deferred (V E : Type 0) : Type 0 where
    deferred : Fields V E → Handlers V E → Deferred V E

  -- A handler: `onSuccess`, `onError` and `next`.
  pub data Handlers (V E : Type 0) : Type 0 where
    no_handlers : Handlers V E
    handler_and : (V → Attempt V E) → (E → Attempt V E) → Deferred V E → Handlers V E → Handlers V E

module _ {V E : Type 0} where
  unfoldable pub new_deferred : Deferred V E
  new_deferred =
      deferred
        (record {
          value = none;
          err = none;
          occurred_err = [];
          is_resolved = false;
          is_rejected = false;
        })
        no_handlers

  unfoldable pub answer : (V → Attempt V E) → (E → Attempt V E) → Attempt V E → Attempt V E
  answer on_success on_error (returned v) = on_success v
  answer on_success on_error (failed e) = on_error e

  abbrev pub error_of : Attempt V E → List E
  error_of (returned v) = []
  error_of (failed e) = e ∷ []

  -- The errors that the callbacks of the handlers return, in their order.
  unfoldable pub errors_of : Handlers V E → Attempt V E → List E
  errors_of no_handlers a = []
  errors_of (handler_and on_success on_error next hs) a =
      error_of (answer on_success on_error a) ++ errors_of hs a

  unfoldable pub mark : Fields V E → Attempt V E → List E → Fields V E
  mark s (returned v) errors = record s {
    value = some v;
    is_resolved = true;
    occurred_err = s.occurred_err ++ errors;
  }
  mark s (failed e) errors = record s {
    err = some e;
    is_rejected = true;
    occurred_err = s.occurred_err ++ errors;
  }

  -- `Resolve` and `Reject`: each handler settles its next deferred by what its callback returns.
  unfoldable mutual
    pub settle : Deferred V E → Attempt V E → Deferred V E
    settle (deferred s hs) a = deferred (mark s a (errors_of hs a)) (settle_all hs a)

    pub settle_all : Handlers V E → Attempt V E → Handlers V E
    settle_all no_handlers a = no_handlers
    settle_all (handler_and on_success on_error next hs) a =
        handler_and on_success on_error (settle next (answer on_success on_error a))
          (settle_all hs a)

  unfoldable pub resolve : Deferred V E → V → Deferred V E
  resolve d v = settle d (returned v)

  unfoldable pub reject : Deferred V E → E → Deferred V E
  reject d e = settle d (failed e)

  unfoldable pub append : Handlers V E → Handlers V E → Handlers V E
  append no_handlers hs = hs
  append (handler_and on_success on_error next gs) hs =
      handler_and on_success on_error next (append gs hs)

  -- What a deferred is settled with, if it is.
  unfoldable pub settlement : Fields V E → Option (Attempt V E)
  settlement s =
      if s.is_resolved
      then elim s.value [ none ↦ none | some v ↦ some (returned v) ]
      else if s.is_rejected
      then elim s.err [ none ↦ none | some e ↦ some (failed e) ]
      else none

  -- One handler behind the others; in a deferred that is settled, it runs at once.
  unfoldable pub add_handler : Deferred V E → Handlers V E → Deferred V E
  add_handler (deferred s hs) h = elim (settlement s) [
    | none ↦ deferred s (append hs h)
    | some a ↦
        deferred (record s { occurred_err = s.occurred_err ++ errors_of h a })
          (append hs (settle_all h a))
  ]

  unfoldable pub then_ : Deferred V E → (V → Attempt V E) → (E → Attempt V E) → Deferred V E
  then_ d on_success on_error =
      add_handler d (handler_and on_success on_error new_deferred no_handlers)

  -- The errors of a deferred, and then those of the next deferreds.
  unfoldable mutual
    pub occurred_err : Deferred V E → List E
    occurred_err (deferred s hs) = s.occurred_err ++ nested_errors hs

    pub nested_errors : Handlers V E → List E
    nested_errors no_handlers = []
    nested_errors (handler_and on_success on_error next hs) = occurred_err next ++ nested_errors hs
