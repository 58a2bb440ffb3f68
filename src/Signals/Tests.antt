-- ===== src/Signals/Tests.antt =====
-- Observers that write down what they see, and each property of signals at them.
use ascetic_ddd_go.Base.{
  ℕ, ◌≡◌, refl, List, [], ◌∷◌, none, some, ℕ_discrete, true, false, if◌then◌else◌, ◌==◌,
}
use ascetic_ddd_go.Signals.{
  Observer, Entry, SignalImp, notify_all, notify, is_attached, attach_id, detach_id,
  composite_notify, Delegates, no_delegates, delegate, signal_imp, composite_signal_imp,
}
use ascetic_ddd_go.Signals.Laws.{
  Distinct, composite_notify-all_observers, attach-Distinct, detach-attach, Restored,
}

-- The event is written down under the observer's number; event 0 is refused.
abbrev writes : ℕ → Observer ℕ ℕ (List (ℕ × ℕ))
writes n event log = if event == 0 then (some n, log) else (none, (n, event) ∷ log)

abbrev entry : ℕ → Entry ℕ ℕ ℕ (List (ℕ × ℕ))
entry n = record { id = n; observer = writes n }

abbrev pair_of : ℕ → ℕ → SignalImp ℕ ℕ ℕ (List (ℕ × ℕ))
pair_of n m = record { observers = entry n ∷ entry m ∷ [] }

-- A composite signal within a composite signal.
abbrev nested : Delegates ℕ ℕ ℕ (List (ℕ × ℕ))
nested =
    delegate (composite_signal_imp (delegate (signal_imp (pair_of 1 2)) no_delegates))
      (delegate (signal_imp (pair_of 3 4)) no_delegates)

composite_notify-run : composite_notify nested 7 [] ≡ (none, (4, 7) ∷ (3, 7) ∷ (2, 7) ∷ (1, 7) ∷ [])
unfolding composite_notify notify notify_all
composite_notify-run = refl

composite_notify-all_observers_example :
    composite_notify nested 7 [] ≡ notify_all (entry 1 ∷ entry 2 ∷ entry 3 ∷ entry 4 ∷ []) 7 []
composite_notify-all_observers_example = composite_notify-all_observers nested 7 []

attach-Distinct_example :
    Distinct ℕ_discrete (attach_id ℕ_discrete 2 (writes 5) (pair_of 1 2)).observers
    × (is_attached ℕ_discrete 2 (attach_id ℕ_discrete 2 (writes 5) (pair_of 1 2)).observers ≡ true)
    × Distinct ℕ_discrete (detach_id ℕ_discrete 2 (pair_of 1 2)).observers
    × (is_attached ℕ_discrete 2 (detach_id ℕ_discrete 2 (pair_of 1 2)).observers ≡ false)
unfolding is_attached ℕ_discrete
attach-Distinct_example = attach-Distinct ℕ_discrete 2 (writes 5) (pair_of 1 2) (refl, (refl, tt))

detach-attach_example :
    (attach_id ℕ_discrete 3 (writes 6) (attach_id ℕ_discrete 3 (writes 5) (pair_of 1 3))
      ≡ attach_id ℕ_discrete 3 (writes 5) (pair_of 1 3))
    × Restored ℕ_discrete 3 (writes 5) (pair_of 1 3)
detach-attach_example = detach-attach ℕ_discrete 3 (writes 5) (writes 6) (pair_of 1 3)
