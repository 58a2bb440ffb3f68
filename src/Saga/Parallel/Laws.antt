-- ===== src/Saga/Parallel/Laws.antt =====
-- The branches of a parallel activity (parallel_activity.go) under a schedule.
use ascetic_ddd_go.Base.{
  zero, suc, ℕ, ◌≤◌, ◌≡◌, refl, ap, subst, List, [], ◌∷◌, map, some, true, length, get_elem?, All,
  Bool-cases, inl, inr, arith,
}
use ascetic_ddd_go.Saga.{
  Answer, RoutingSlip, WorkOutcome, done, nothing, Activities, is_in_progress,
}
use ascetic_ddd_go.Saga.Composite.{CompositeType, new_parallel_activity}
use ascetic_ddd_go.Saga.Rollback.{Shrinks}
use ascetic_ddd_go.Saga.Parallel.{
  Branch, running, undoing, finished, slip, all_success, interleave, step, compensate_step,
  none_in_progress, compensate_branches, do_work,
}
use ascetic_ddd_go.Saga.Parallel.Branches.{
  turns, Steps, interleave-Steps, Steps-lower, Steps-le, Steps-All, All-get_elem?, measure, load,
  IsSound, step_progress, compensate_step-le,
}
use ascetic_ddd_go.Saga.Parallel.Traces.{
  Trace, Together, Together-map, Woven, Walk, interleave-Woven,
}
use ascetic_ddd_go.Saga.Parallel.Runs.{Compensating, Reached, Walk-Reached, Walk-Compensating}
use ascetic_ddd_go.Saga.Parallel.Joins.{
  Undone, Joined, HasEnded, answered, succeeded, all_success-HasFailed,
}

-- Each goroutine has the turns that it may need.
abbrev pub Fair : {B : Type 0} → (B → ℕ) → List ℕ → List B → Type 0
Fair {B} μ schedule bs = (j : ℕ) (b : B) → get_elem? bs j ≡ some b → μ b ≤ turns j schedule

get_elem?-map :
    {A B : Type 0} (f : A → B) (xs : List A) (j : ℕ) (b : B)
    → get_elem? (map f xs) j ≡ some b
    → (a : A) × (get_elem? xs j ≡ some a) × (b ≡ f a)
get_elem?-map f [] j b h = absurd (cc)
get_elem?-map f (x ∷ xs) zero b h = (x, refl, ground arith)
get_elem?-map f (x ∷ xs) (suc j) b h = get_elem?-map f xs j b h

empty_of_length : {A : Type 0} (xs : List A) → length xs ≤ 0 → xs ≡ []
empty_of_length [] h = refl
empty_of_length (x ∷ xs) h = absurd (omega arith)

module _ {T A R W : Type 0} (acts : Activities T A R W) (shrinks : Shrinks acts) where
  none_in_progress_of_Undone :
      (slips : List (RoutingSlip T A R)) → Undone slips → none_in_progress slips ≡ true
  unfolding none_in_progress is_in_progress
  none_in_progress_of_Undone [] h = refl
  none_in_progress_of_Undone (rs ∷ slips) h = ground (arith, none_in_progress_of_Undone slips h.1)

  -- The compensations end with nothing left to undo.
  pub compensate_branches-Undone :
      (undoes : List ℕ) (slips : List (RoutingSlip T A R)) (w : W)
      → Fair (λ rs. length rs.completed_work_logs) undoes slips
      → (after : List (RoutingSlip T A R)) × (w' : W) × (us : List (Trace W)) × (compensate_branches
            acts undoes slips w
          ≡ some (after, w'))
        × Together (Walk (compensate_step acts)) slips us after
        × Woven us w w'
        × Undone after
  unfolding compensate_branches
  compensate_branches-Undone undoes slips w fair =
      let (after, w') = interleave (compensate_step acts) undoes slips w in
      let (us, walks, woven) = interleave-Woven (compensate_step acts) undoes slips w in
      let undone : Undone after = All-get_elem? _ after (λ j rs h.
        let (rs₀, at, steps) = interleave-Steps (compensate_step acts) j undoes slips w rs h in
        empty_of_length rs.completed_work_logs (
          omega (
            arith,
            Steps-lower (compensate_step acts) (λ x. length x.completed_work_logs)
                (λ x v. compensate_step-le acts x v shrinks) steps,
            fair j rs₀ at,
          ))) in
      (after, w', us, compensated undone, walks, woven, undone)
    where
      compensated :
          Undone (interleave (compensate_step acts) undoes slips w).0
          → compensate_branches acts undoes slips w
            ≡ some (interleave (compensate_step acts) undoes slips w)
      compensated undone = rw (none_in_progress_of_Undone _ undone, compensate_branches)

  -- Where a branch is after the fork.
  forked :
      (forks : List ℕ) (branches : List (RoutingSlip T A R)) (w : W) (j : ℕ) (b : Branch T A R)
      → Fair (λ rs. measure (running rs)) forks branches
      → get_elem? (interleave (step acts) forks (map running branches) w).0 j ≡ some b
      → (rs : RoutingSlip T A R) × (get_elem? branches j ≡ some rs)
        × HasEnded b
        × (load b ≤ load (running rs))
  forked forks branches w j b fair h =
      let (b₀, at, steps) = interleave-Steps (step acts) j forks (map running branches) w b h in
      let (rs, here, e) = get_elem?-map running branches j b₀ at in
      let own = subst (λ x. Steps (step acts) (turns j forks) x b) e steps in
      let lower = Steps-lower (step acts) measure (λ x v. (step_progress acts x v shrinks).0) own in
      (
        rs,
        here,
        (
          omega (arith, lower, fair j rs here),
          Steps-All (step acts) IsSound (λ x v. (step_progress acts x v shrinks).2) own tt,
        ),
        Steps-le (step acts) load (λ x v. (step_progress acts x v shrinks).1) own,
      )

  load_of_ended : (b : Branch T A R) → HasEnded b → length (slip b).completed_work_logs ≤ load b
  load_of_ended (running rs) h = absurd (omega arith)
  load_of_ended (undoing rs) h = absurd (omega arith)
  load_of_ended (finished a rs) h = omega arith

  module _ (forks undoes : List ℕ) (branches : List (RoutingSlip T A R)) (w : W)
      (fair_forks : Fair (λ rs. measure (running rs)) forks branches)
      (fair_undoes : Fair (λ rs. load (running rs)) undoes branches) where
    ended : All HasEnded (interleave (step acts) forks (map running branches) w).0
    ended = All-get_elem? _ _ (λ j b h. (forked forks branches w j b fair_forks h).2)

    undoes-Fair :
        Fair
          (λ rs. length rs.completed_work_logs)
          undoes
          (map slip (interleave (step acts) forks (map running branches) w).0)
    undoes-Fair j rs' h =
        let (b, at, e) = get_elem?-map slip _ j rs' h in
        let (rs, here, over, le) = forked forks branches w j b fair_forks at in
        omega (
          arith,
          le,
          fair_undoes j rs here,
          load_of_ended b over,
          ap (λ x. length x.completed_work_logs) e,
        )

    -- If no compensation adds a log to a slip, then under every pair of schedules that gives each
    -- goroutine the turns it may need, DoWork of a parallel activity ends, and its outcome is
    -- never an error. The steps of the branches make one sequence, in which each finds the world
    -- that the one before it left, from the world before to the world after. Either each branch
    -- worked off its items in their order, none has an item left, and the outcome is one log of
    -- all branches as they are left; or each branch ran to its end, by working off its items or
    -- by undoing its logs after one that was not done, one of them failed, the outcome is nil,
    -- and then every branch was compensated, whatever the compensations answered, until it had no
    -- log left. With no branch at all the outcome is a log.
    pub do_work-Joined :
        (o : WorkOutcome CompositeType (List (RoutingSlip T A R))) × (after : List
          (RoutingSlip T A R))
        × (w' : W) × (do_work acts forks undoes branches w ≡ some (o, after, w'))
        × Joined acts branches w o after w'
    unfolding do_work
    do_work-Joined =
        let (bs, w') = interleave (step acts) forks (map running branches) w in
        let (ts, walks, woven) = interleave-Woven (step acts) forks (map running branches) w in
        let reached =
          Together-map (Walk (step acts)) (λ rs t b. Reached acts (running rs) t b) HasEnded running
            (λ rs t b walk _. Walk-Reached acts walk) branches ts bs walks ended in
        let (ends, e, left, worked, good) = answered acts branches ts bs reached ended in
        elim (Bool-cases (all_success (map (λ end. end.0) ends))) [
          | inl all ↦
              let (each, none_left) = succeeded acts branches ts ends worked good all in
              (
                done (record {
                  activity_type = new_parallel_activity;
                  result = map (λ end. end.1) ends;
                }),
                map (λ end. end.1) ends,
                w',
                ground (arith, e, left, all),
                (ts, each, woven, none_left, refl),
              )
          | inr some_failed ↦
              let (after, w'', us, runs, undoings, woven', undone) =
                compensate_branches-Undone undoes (map (λ end. end.1) ends) w'
                  (subst (Fair (λ rs. length rs.completed_work_logs) undoes) left undoes-Fair) in
              let compensations =
                Together-map (Walk (compensate_step acts))
                  (λ (end : Answer × RoutingSlip T A R) u rs'. Compensating acts end.1 u rs')
                  (λ rs. rs.completed_work_logs ≡ []) (λ end. end.1)
                  (λ end u rs' walk empty. Walk-Compensating acts walk empty) ends us after undoings
                  undone in
              (
                nothing,
                after,
                w'',
                ground (arith, e, left, some_failed, runs),
                (
                  ends,
                  ts,
                  us,
                  w',
                  worked,
                  woven,
                  all_success-HasFailed ends some_failed,
                  compensations,
                  woven',
                  undone,
                ),
              )
        ]
