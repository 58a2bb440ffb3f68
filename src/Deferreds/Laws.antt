-- ===== src/Deferreds/Laws.antt =====
-- When a handler of asceticddd/deferred/deferred.go is added does not matter.
use ascetic_ddd_go.Base.{
  ◌≡◌, refl, sym, ap, ap₂, ◌∙◌, true, false, List, ◌++◌, Option, none, some, append_assoc, arith,
}
use ascetic_ddd_go.Deferreds.{
  Attempt, returned, failed, Fields, Deferred, deferred, Handlers, no_handlers, handler_and, answer,
  error_of, errors_of, mark, settle, settle_all, append, settlement, add_handler, then_,
  new_deferred,
}

module _ {V E : Type 0} where
  errors_of-append :
      (gs hs : Handlers V E) (a : Attempt V E)
      → errors_of (append gs hs) a ≡ errors_of gs a ++ errors_of hs a
  unfolding errors_of append
  errors_of-append no_handlers hs a = refl
  errors_of-append (handler_and on_success on_error next gs) hs a =
      ap (λ es. error_of (answer on_success on_error a) ++ es) (errors_of-append gs hs a)
      ∙ sym
          (append_assoc (error_of (answer on_success on_error a)) (errors_of gs a) (errors_of hs a))

  settle_all-append :
      (gs hs : Handlers V E) (a : Attempt V E)
      → settle_all (append gs hs) a ≡ append (settle_all gs a) (settle_all hs a)
  unfolding settle_all append
  settle_all-append no_handlers hs a = refl
  settle_all-append (handler_and on_success on_error next gs) hs a =
      ap (handler_and on_success on_error (settle next (answer on_success on_error a)))
        (settle_all-append gs hs a)

  settlement-mark :
      (s : Fields V E) (a : Attempt V E) (errors : List E)
      → s.is_resolved ≡ false
      → settlement (mark s a errors) ≡ some a
  unfolding settlement mark
  settlement-mark s (returned v) errors h = refl
  settlement-mark s (failed e) errors h = ground (arith, h)

  settlement-pending :
      (s : Fields V E) → s.is_resolved ≡ false → s.is_rejected ≡ false → settlement s ≡ none
  unfolding settlement
  settlement-pending s h k = ground (arith, h, k)

  -- A handler is added by what the deferred is settled with.
  added : Fields V E → Handlers V E → Handlers V E → Option (Attempt V E) → Deferred V E
  added s hs h none = deferred s (append hs h)
  added s hs h (some a) =
      deferred (record s { occurred_err = s.occurred_err ++ errors_of h a })
        (append hs (settle_all h a))

  add_handler-added :
      (s : Fields V E) (hs h : Handlers V E) (o : Option (Attempt V E))
      → settlement s ≡ o
      → add_handler (deferred s hs) h ≡ added s hs h o
  unfolding add_handler added
  add_handler-added s hs h none e = rw (e, add_handler) refl
  add_handler-added s hs h (some a) e = rw (e, add_handler) refl

  added-mark :
      (s : Fields V E) (gs hs : Handlers V E) (a : Attempt V E) (errors : List E)
      → added (mark s a errors) gs hs (some a)
        ≡ deferred (mark s a (errors ++ errors_of hs a)) (append gs (settle_all hs a))
  unfolding added mark
  added-mark s gs hs (returned v) errors =
      ap
        (λ es.
          deferred (record s { value = some v; is_resolved = true; occurred_err = es })
            (append gs (settle_all hs (returned v))))
        (append_assoc s.occurred_err errors (errors_of hs (returned v)))
  added-mark s gs hs (failed e) errors =
      ap
        (λ es.
          deferred (record s { err = some e; is_rejected = true; occurred_err = es })
            (append gs (settle_all hs (failed e))))
        (append_assoc s.occurred_err errors (errors_of hs (failed e)))

  -- In a deferred that is neither resolved nor rejected, adding callbacks by Then and then
  -- settling it, by a value or an error, leaves the same tree of deferreds, the errors that
  -- occurred included, as settling it and then adding the callbacks.
  pub settle-then_ :
      (s : Fields V E) (hs : Handlers V E) (on_success : V → Attempt V E)
      (on_error : E → Attempt V E) (a : Attempt V E)
      → s.is_resolved ≡ false
      → s.is_rejected ≡ false
      → settle (then_ (deferred s hs) on_success on_error) a
        ≡ then_ (settle (deferred s hs) a) on_success on_error
  unfolding then_ settle added
  settle-then_ s hs on_success on_error a h k =
      let new = handler_and on_success on_error new_deferred no_handlers in
      let errors = errors_of hs a in
      ap (λ d. settle d a) (add_handler-added s hs new none (settlement-pending s h k))
      ∙ ap₂ (λ es gs. deferred (mark s a es) gs) (errors_of-append hs new a)
          (settle_all-append hs new a)
      ∙ sym (added-mark s (settle_all hs a) new a errors)
      ∙ sym (
          add_handler-added (mark s a errors) (settle_all hs a) new (some a)
            (settlement-mark s a errors h))
