-- ===== src/Saga/Parallel/Joins.antt =====
-- How the branches of parallel_activity.go end together: what `DoWork` answers, from the ends of
-- the branches.
use ascetic_ddd_go.Base.{
  ◌≤◌, ◌≡◌, refl, ap, List, [], ◌∷◌, map, none, some, true, false, All, arith,
}
use ascetic_ddd_go.Saga.{RoutingSlip, WorkOutcome, done, nothing, failed, Answer, Activities}
use ascetic_ddd_go.Saga.Composite.{CompositeType, new_parallel_activity}
use ascetic_ddd_go.Saga.Parallel.{Branch, running, undoing, finished, slip, answers, all_success}
use ascetic_ddd_go.Saga.Parallel.Branches.{measure, IsSound}
use ascetic_ddd_go.Saga.Parallel.Traces.{Trace, Together, Woven}
use ascetic_ddd_go.Saga.Parallel.Runs.{Working, Compensating, Reached}

module _ {T A R : Type 0} where
  abbrev pub Undone : List (RoutingSlip T A R) → Type 0
  Undone = All (λ rs. rs.completed_work_logs ≡ [])

  -- Has one of the branches ended otherwise than with true and no error?
  abbrev pub HasFailed : List (Answer × RoutingSlip T A R) → Type 0
  HasFailed [] = ¬ Unit
  HasFailed (((true, none), _) ∷ ends) = HasFailed ends
  HasFailed (_ ∷ ends) = Unit

  abbrev pub HasEnded : Branch T A R → Type 0
  HasEnded b = (measure b ≤ 0) × IsSound b

  pub all_success-HasFailed :
      (ends : List (Answer × RoutingSlip T A R))
      → all_success (map (λ end. end.0) ends) ≡ false
      → HasFailed ends
  unfolding all_success
  all_success-HasFailed [] h = absurd (cc)
  all_success-HasFailed (((true, none), rs) ∷ ends) h = all_success-HasFailed ends h
  all_success-HasFailed (((true, some x), rs) ∷ ends) h = tt
  all_success-HasFailed (((false, x), rs) ∷ ends) h = tt

module _ {T A R W : Type 0} (acts : Activities T A R W) where
  -- Each branch worked off its slip, and the log is of the slips that are left; or each ran to its
  -- end, one of them failed, and then all were compensated. The worlds are those of an
  -- interleaving of what the branches did.
  abbrev pub Joined :
      List (RoutingSlip T A R)
      → W
      → WorkOutcome CompositeType (List (RoutingSlip T A R))
      → List (RoutingSlip T A R)
      → W
      → Type 0
  Joined branches w (done log) after w' =
      (ts : List (Trace W)) × Together (λ rs t rs'. Working acts rs t (true, none) rs') branches ts
        after
      × Woven ts w w'
      × All (λ rs. rs.next_work_items ≡ []) after
      × (log ≡ record { activity_type = new_parallel_activity; result = after })
  Joined branches w nothing after w' =
      (ends : List (Answer × RoutingSlip T A R)) × (ts us : List (Trace W)) × (w₁ : W) × Together
        (λ rs t end. Working acts rs t end.0 end.1) branches ts ends
      × Woven ts w w₁
      × HasFailed ends
      × Together (λ end u rs'. Compensating acts end.1 u rs') ends us after
      × Woven us w₁ w'
      × Undone after
  Joined branches w (failed _) after w' = ¬ Unit

  -- Once every branch has ended there is an answer for each.
  pub answered :
      (branches : List (RoutingSlip T A R)) (ts : List (Trace W)) (bs : List (Branch T A R))
      → Together (λ rs t b. Reached acts (running rs) t b) branches ts bs
      → All HasEnded bs
      → (ends : List (Answer × RoutingSlip T A R)) × (answers bs ≡ some (map (λ end. end.0) ends))
        × (map slip bs ≡ map (λ end. end.1) ends)
        × Together (λ rs t end. Working acts rs t end.0 end.1) branches ts ends
        × All (λ end. end.0.0 ≡ true → end.1.next_work_items ≡ []) ends
  unfolding answers
  answered [] [] [] r h = ([], refl, refl, tt, tt)
  answered (rs₀ ∷ branches) (t ∷ ts) (finished (true, x) rs ∷ bs) r h =
      let (ends, e, left, worked, good) = answered branches ts bs r.1 h.1 in
      (
        ((true, x), rs) ∷ ends,
        rw (e, answers),
        ap (λ l. rs ∷ l) left,
        (r.0, worked),
        (λ _. h.0.1, good),
      )
  answered (rs₀ ∷ branches) (t ∷ ts) (finished (false, x) rs ∷ bs) r h =
      let (ends, e, left, worked, good) = answered branches ts bs r.1 h.1 in
      (
        ((false, x), rs) ∷ ends,
        rw (e, answers),
        ap (λ l. rs ∷ l) left,
        (r.0, worked),
        (λ s. absurd (cc), good),
      )
  answered (rs₀ ∷ branches) (t ∷ ts) (running rs ∷ bs) r h = absurd (omega arith)
  answered (rs₀ ∷ branches) (t ∷ ts) (undoing rs ∷ bs) r h = absurd (omega arith)
  answered [] [] (b ∷ bs) r h = absurd (r tt)
  answered [] (t ∷ ts) bs r h = absurd (r tt)
  answered (rs₀ ∷ branches) [] bs r h = absurd (r tt)
  answered (rs₀ ∷ branches) (t ∷ ts) [] r h = absurd (r tt)

  -- Success for all of them means that all the work is done.
  pub succeeded :
      (branches : List (RoutingSlip T A R)) (ts : List (Trace W))
      (ends : List (Answer × RoutingSlip T A R))
      → Together (λ rs t end. Working acts rs t end.0 end.1) branches ts ends
      → All (λ end. end.0.0 ≡ true → end.1.next_work_items ≡ []) ends
      → all_success (map (λ end. end.0) ends) ≡ true
      → Together
          (λ rs t rs'. Working acts rs t (true, none) rs')
          branches
          ts
          (map (λ end. end.1) ends)
        × All (λ rs. rs.next_work_items ≡ []) (map (λ end. end.1) ends)
  unfolding all_success
  succeeded [] [] [] r good h = (tt, tt)
  succeeded (rs ∷ branches) (t ∷ ts) (((true, none), rs') ∷ ends) r good h =
      let (worked, left) = succeeded branches ts ends r.1 good.1 h in
      ((r.0, worked), (good.0 refl, left))
  succeeded (rs ∷ branches) (t ∷ ts) (((true, some x), rs') ∷ ends) r good h = absurd (cc)
  succeeded (rs ∷ branches) (t ∷ ts) (((false, x), rs') ∷ ends) r good h = absurd (cc)
  succeeded [] [] (end ∷ ends) r good h = absurd (r tt)
  succeeded [] (t ∷ ts) ends r good h = absurd (r tt)
  succeeded (rs ∷ branches) [] ends r good h = absurd (r tt)
  succeeded (rs ∷ branches) (t ∷ ts) [] r good h = absurd (r tt)
