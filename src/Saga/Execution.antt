-- ===== src/Saga/Execution.antt =====
-- The loops over a routing slip: `executeAlternative` of fallback_activity.go, which is also
-- `executeBranch` of parallel_activity.go word for word, and the compensation loops. Each `for`
-- takes fuel, and `none` means that the fuel ran out.
use ascetic_ddd_go.Base.{ℕ, zero, suc, Option, none, some, true, false}
use ascetic_ddd_go.Saga.{
  RoutingSlip, Error, Answer, Activities, is_completed, is_in_progress, process_next, undo_last,
}

module _ {T A R W : Type 0} (acts : Activities T A R W) where
  -- `for rs.IsInProgress() { _, err := rs.UndoLast(ctx); if err != nil { return false, err } }`
  unfoldable pub undo_all :
      ℕ → RoutingSlip T A R → W → Option (Option Error × RoutingSlip T A R × W)
  undo_all zero rs w = elim (is_in_progress rs) [ true ↦ none | false ↦ some (none, rs, w) ]
  undo_all (suc fuel) rs w = elim (is_in_progress rs) [
    | false ↦ some (none, rs, w)
    | true ↦
        let ((_, err), rs', w') = undo_last acts rs w in
        elim err [ some e ↦ some (some e, rs', w') | none ↦ undo_all fuel rs' w' ]
  ]

  -- The end of a failed attempt.
  unfoldable pub give_up : ℕ → RoutingSlip T A R → W → Option (Answer × RoutingSlip T A R × W)
  give_up fuel rs w = elim (undo_all fuel rs w) [
    | none ↦ none
    | some (err, rs', w') ↦ some ((false, err), rs', w')
  ]

  unfoldable pub execute : ℕ → ℕ → RoutingSlip T A R → W → Option (Answer × RoutingSlip T A R × W)
  unfolding give_up
  execute zero undo_fuel rs w = elim (is_completed rs) [
    | true ↦ some ((true, none), rs, w)
    | false ↦ none
  ]
  execute (suc fuel) undo_fuel rs w = elim (is_completed rs) [
    | true ↦ some ((true, none), rs, w)
    | false ↦
        let ((success, err), rs', w') = process_next acts rs w in
        elim err [
          | some e ↦ some ((false, some e), rs', w')
          | none ↦ elim success [
            | true ↦ execute fuel undo_fuel rs' w'
            | false ↦ give_up undo_fuel rs' w'
          ]
        ]
  ]
