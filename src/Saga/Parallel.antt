-- ===== src/Saga/Parallel.antt =====
-- asceticddd/saga/parallel_activity.go: a goroutine for each branch. A schedule says which goroutine
-- makes the next step, a call of an activity; `none` stands for a schedule that does not let every
-- goroutine end.
pub mod Branches
pub mod Joins
pub mod Laws
pub mod Traces
pub mod Runs
use ascetic_ddd_go.Base.{
  ℕ, zero, suc, ◌+◌, List, [], ◌∷◌, Option, none, some, Bool, true, false, String, length, map,
}
use ascetic_ddd_go.Saga.{
  RoutingSlip, WorkLog, WorkOutcome, done, nothing, failed, Error, Answer, Activities, is_completed,
  is_in_progress, process_next, undo_last,
}
use ascetic_ddd_go.Saga.Execution.{undo_all, execute}
use ascetic_ddd_go.Saga.Composite.{CompositeType, new_parallel_activity}

-- A goroutine of `DoWork`, between two calls of activities.
pub data Branch (T A R : Type 0) : Type 0 where
  running undoing : RoutingSlip T A R → Branch T A R
  finished : Answer → RoutingSlip T A R → Branch T A R

abbrev pub slip : {T A R : Type 0} → Branch T A R → RoutingSlip T A R
slip (running rs) = rs
slip (undoing rs) = rs
slip (finished _ rs) = rs

-- `wg.Wait`: the answers of the goroutines, once all of them have ended.
unfoldable pub answers : {T A R : Type 0} → List (Branch T A R) → Option (List Answer)
answers [] = some []
answers (finished a rs ∷ bs) = elim (answers bs) [ none ↦ none | some as' ↦ some (a ∷ as') ]
answers (_ ∷ bs) = none

-- `r.err != nil || !r.success` for no result.
unfoldable pub all_success : List Answer → Bool
all_success [] = true
all_success ((true, none) ∷ rs) = all_success rs
all_success (_ ∷ rs) = false

-- Lets goroutine `i` make one step.
unfoldable pub advance {ℓ} : {B W : Type ℓ} → (B → W → B × W) → ℕ → List B → W → List B × W
advance step i [] w = ([], w)
advance step zero (b ∷ bs) w = let (b', w') = step b w in (b' ∷ bs, w')
advance step (suc i) (b ∷ bs) w = let (bs', w') = advance step i bs w in (b ∷ bs', w')

-- An interleaving: the goroutine that moves, step by step.
unfoldable pub interleave {ℓ} : {B W : Type ℓ} → (B → W → B × W) → List ℕ → List B → W → List B × W
interleave step [] bs w = (bs, w)
interleave step (i ∷ schedule) bs w =
    let (bs', w') = advance step i bs w in interleave step schedule bs' w'

-- `wg.Wait` of `compensateBranches`: no goroutine has a round left.
unfoldable pub none_in_progress : {T A R : Type 0} → List (RoutingSlip T A R) → Bool
none_in_progress [] = true
none_in_progress (rs ∷ branches) = elim (is_in_progress rs) [
  | true ↦ false
  | false ↦ none_in_progress branches
]

module _ {T A R W : Type 0} (acts : Activities T A R W) where
  -- One step of `executeBranch`.
  unfoldable pub step : Branch T A R → W → Branch T A R × W
  step (running rs) w = elim (is_completed rs) [
    | true ↦ (finished (true, none) rs, w)
    | false ↦
        let ((success, err), rs', w') = process_next acts rs w in
        elim err [
          | some e ↦ (finished (false, some e) rs', w')
          | none ↦ elim success [ true ↦ (running rs', w') | false ↦ (undoing rs', w') ]
        ]
  ]
  step (undoing rs) w = elim (is_in_progress rs) [
    | false ↦ (finished (false, none) rs, w)
    | true ↦
        let ((_, err), rs', w') = undo_last acts rs w in
        elim err [ some e ↦ (finished (false, some e) rs', w') | none ↦ (undoing rs', w') ]
  ]
  step (finished a rs) w = (finished a rs, w)

  -- One step of `compensateBranch`, which drops what `UndoLast` answers.
  unfoldable pub compensate_step : RoutingSlip T A R → W → RoutingSlip T A R × W
  compensate_step rs w = elim (is_in_progress rs) [
    | false ↦ (rs, w)
    | true ↦ let (_, rs', w') = undo_last acts rs w in (rs', w')
  ]

  unfoldable pub compensate_branches :
      List ℕ → List (RoutingSlip T A R) → W → Option (List (RoutingSlip T A R) × W)
  compensate_branches schedule branches w =
      let (branches', w') = interleave compensate_step schedule branches w in
      elim (none_in_progress branches') [ true ↦ some (branches', w') | false ↦ none ]

  -- `forks` interleaves the branches, `undoes` their compensation.
  unfoldable pub do_work :
      (forks undoes : List ℕ)
      → List (RoutingSlip T A R)
      → W
      → Option (WorkOutcome CompositeType (List (RoutingSlip T A R)) × List (RoutingSlip T A R) × W)
  do_work forks undoes branches w =
      let (bs, w') = interleave step forks (map running branches) w in
      let slips : List (RoutingSlip T A R) = map slip bs in
      elim (answers bs) [
        | none ↦ none
        | some results ↦ elim (all_success results) [
          | true ↦
              some
                (done (record { activity_type = new_parallel_activity; result = slips }), slips, w')
          | false ↦ elim (compensate_branches undoes slips w') [
            | none ↦ none
            | some (slips', w'') ↦ some (nothing, slips', w'')
          ]
        ]
      ]

  unfoldable pub compensate :
      List ℕ
      → WorkLog CompositeType (List (RoutingSlip T A R))
      → W
      → Option (Answer × List (RoutingSlip T A R) × W)
  compensate undoes work_log w = elim (compensate_branches undoes work_log.result w) [
    | none ↦ none
    | some (slips, w') ↦ some ((true, none), slips, w')
  ]
