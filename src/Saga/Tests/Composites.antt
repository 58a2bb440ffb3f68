-- ===== src/Saga/Tests/Composites.antt =====
-- The fallback and the parallel activity at sample slips.
use ascetic_ddd_go.Base.{
  ℕ, zero, suc, ◌≡◌, refl, List, [], ◌∷◌, some, none, true, arith, ℕ_discrete,
}
use ascetic_ddd_go.Saga.{RoutingSlip, WorkOutcome, nothing}
use ascetic_ddd_go.Saga.Composite.{CompositeType, new_fallback_activity}
use ascetic_ddd_go.Saga.Rollback.{slip_of}
use ascetic_ddd_go.Saga.Fallback
use ascetic_ddd_go.Saga.Fallback.{execute_alternative}
use ascetic_ddd_go.Saga.Fallback.Laws.{Outcome, Tried, do_work-Tried, compensate-undone}
use ascetic_ddd_go.Saga.Parallel
use ascetic_ddd_go.Saga.Parallel.{
  running, advance, interleave, step, compensate_step, answers, all_success, none_in_progress,
  compensate_branches,
}
use ascetic_ddd_go.Saga.Parallel.Branches.{measure, load}
use ascetic_ddd_go.Saga.Parallel.Joins.{Joined}
use ascetic_ddd_go.Saga.Parallel.Laws.{Fair, do_work-Joined}
use ascetic_ddd_go.Saga.Tests.{
  Kind, hotel, car, Event, reserved, cancelled, travel, trip, failing, item, log, program,
  travel-Shrinks, travel-Reliable,
}

abbrev slips : List (RoutingSlip Kind ℕ ℕ)
slips = slip_of travel failing [] ∷ slip_of travel trip [] ∷ slip_of travel trip [] ∷ []

composites : Unit {0}
unfolding program Fallback.do_work execute_alternative Parallel.do_work advance interleave step
    compensate_step answers all_success none_in_progress compensate_branches
composites = tt

do_work-Tried_example :
    (o : Outcome Kind ℕ ℕ) × (after : List (RoutingSlip Kind ℕ ℕ)) × (w : List Event)
    × (Fallback.do_work travel slips [] ≡ some (o, after, w))
    × Tried travel slips [] o after w
do_work-Tried_example = do_work-Tried travel travel-Shrinks slips []

compensate-undone_example :
    (rs : RoutingSlip Kind ℕ ℕ) × (w : List Event) × (Fallback.compensate travel
        (record {
          activity_type = new_fallback_activity;
          result = slip_of travel [] (log car 3 ∷ log hotel 2 ∷ []);
        })
        []
      ≡ some ((true, none), rs, w))
    × (rs.completed_work_logs ≡ [])
compensate-undone_example =
    compensate-undone travel travel-Shrinks
      (record {
        activity_type = new_fallback_activity;
        result = slip_of travel [] (log car 3 ∷ log hotel 2 ∷ []);
      })
      [] travel-Reliable

abbrev branches : List (RoutingSlip Kind ℕ ℕ)
branches = slip_of travel trip [] ∷ slip_of travel failing [] ∷ []

abbrev rounds : ℕ → List ℕ
rounds zero = []
rounds (suc n) = 0 ∷ 1 ∷ rounds n

abbrev measure_of : RoutingSlip Kind ℕ ℕ → ℕ
measure_of rs = measure (running rs)

abbrev load_of : RoutingSlip Kind ℕ ℕ → ℕ
load_of rs = load (running rs)

forks-Fair : Fair measure_of (rounds 10) branches
unfolding ℕ_discrete
forks-Fair zero b h = ground arith
forks-Fair (suc zero) b h = ground arith
forks-Fair (suc (suc j)) b h = absurd (cc)

undoes-Fair : Fair load_of (rounds 4) branches
unfolding ℕ_discrete
undoes-Fair zero b h = ground arith
undoes-Fair (suc zero) b h = ground arith
undoes-Fair (suc (suc j)) b h = absurd (cc)

-- One branch fails, so the work of the other is undone too.
do_work_branches :
    (w : List Event) × (Parallel.do_work travel (rounds 10) (rounds 4) branches []
      ≡ some (nothing, slip_of travel [] [] ∷ slip_of travel (item hotel 1 ∷ []) [] ∷ [], w))
unfolding composites
do_work_branches = (
  cancelled hotel 2
      ∷ cancelled car 3
      ∷ cancelled hotel 2
      ∷ cancelled car 3
      ∷ reserved car 3
      ∷ reserved car 3
      ∷ reserved hotel 2
      ∷ reserved hotel 2
      ∷ [],
  refl,
)

do_work-Joined_example :
    (o : WorkOutcome CompositeType (List (RoutingSlip Kind ℕ ℕ))) × (after : List
      (RoutingSlip Kind ℕ ℕ))
    × (w : List Event) × (Parallel.do_work travel (rounds 10) (rounds 4) branches []
        ≡ some (o, after, w))
    × Joined travel branches [] o after w
do_work-Joined_example =
    do_work-Joined travel travel-Shrinks (rounds 10) (rounds 4) branches [] forks-Fair undoes-Fair
