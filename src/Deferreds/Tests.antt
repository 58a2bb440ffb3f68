-- ===== src/Deferreds/Tests.antt =====
-- A deferred with two handlers, of which the first fails on small numbers.
use ascetic_ddd_go.Base.{ℕ, suc, ◌≡◌, refl, false, ltb, if◌then◌else◌, [], ◌∷◌, none}
use ascetic_ddd_go.Deferreds.{
  Attempt, returned, failed, Fields, deferred, Handlers, no_handlers, handler_and, settle, then_,
  new_deferred, occurred_err, answer, errors_of, mark, add_handler, append, settlement,
}
use ascetic_ddd_go.Deferreds.Laws.{settle-then_}

abbrev large : ℕ → Attempt ℕ ℕ
large n = if ltb n 10 then failed n else returned n

abbrev next : ℕ → Attempt ℕ ℕ
next n = returned (suc n)

abbrev pending : Fields ℕ ℕ
pending = record {
  value = none;
  err = none;
  occurred_err = [];
  is_resolved = false;
  is_rejected = false;
}

abbrev handlers : Handlers ℕ ℕ
handlers = handler_and large next new_deferred no_handlers

-- The error of the first handler.
failing : occurred_err (settle (then_ (deferred pending handlers) next next) (returned 3)) ≡ 3 ∷ []
unfolding occurred_err settle then_ new_deferred answer errors_of mark add_handler append settlement
failing = refl

settle-then__example :
    settle (then_ (deferred pending handlers) next large) (failed 3)
    ≡ then_ (settle (deferred pending handlers) (failed 3)) next large
settle-then__example = settle-then_ pending handlers next large (failed 3) refl refl
