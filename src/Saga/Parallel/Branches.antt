-- ===== src/Saga/Parallel/Branches.antt =====
-- Interleavings: what one goroutine goes through, whatever the others do meanwhile.
use ascetic_ddd_go.Base.{
  ℕ, zero, suc, ◌+◌, ◌-◌, ◌*◌, ◌≤◌, ◌<◌, ◌≡◌, ◌≢◌, refl, sym, ap, ◌∙◌, subst, ite, if_pos, if_neg,
  List, [], ◌∷◌, ◌++◌, none, some, true, false, length, length-snoc, get_elem?, All, Option-cases,
  inl, inr, arith, ℕ_discrete,
}
use ascetic_ddd_go.Saga.{
  RoutingSlip, WorkItem, WorkLog, WorkOutcome, done, nothing, failed, Activities, is_completed,
  process_next, undo_last,
}
use ascetic_ddd_go.Saga.Rollback.{Shrinks, undo_last_cases}
use ascetic_ddd_go.Saga.Parallel.{
  Branch, running, undoing, finished, advance, interleave, step, compensate_step,
}

-- How often a schedule lets goroutine `j` move.
abbrev pub turns : ℕ → List ℕ → ℕ
turns j [] = 0
turns j (i ∷ schedule) = ite (ℕ_discrete i j) (suc (turns j schedule)) (turns j schedule)

module _ {B W : Type 0} (f : B → W → B × W) where
  -- So many steps of one goroutine, in whatever worlds it finds.
  pub data Steps : ℕ → B → B → Type 0 where
    stay : {b : B} → Steps zero b b
    move : {n : ℕ} {b b' : B} (w : W) → Steps n (f b w).0 b' → Steps (suc n) b b'

  advance_self :
      (i : ℕ) (bs : List B) (w : W) (b' : B)
      → get_elem? (advance f i bs w).0 i ≡ some b'
      → (b : B) × (v : W) × (get_elem? bs i ≡ some b) × (b' ≡ (f b v).0)
  unfolding advance
  advance_self zero [] w b' h = absurd (cc)
  advance_self (suc i) [] w b' h = absurd (cc)
  advance_self zero (b ∷ bs) w b' h = (b, w, refl, ground arith)
  advance_self (suc i) (b ∷ bs) w b' h = advance_self i bs w b' h

  advance_other :
      (i j : ℕ) (bs : List B) (w : W) → i ≢ j → get_elem? (advance f i bs w).0 j ≡ get_elem? bs j
  unfolding advance
  advance_other i j [] w h = refl
  advance_other zero zero (b ∷ bs) w h = absurd (h refl)
  advance_other zero (suc j) (b ∷ bs) w h = refl
  advance_other (suc i) zero (b ∷ bs) w h = refl
  advance_other (suc i) (suc j) (b ∷ bs) w h = advance_other i j bs w (λ e. h (ap suc e))

  -- A goroutine ends where its own turns take it.
  pub interleave-Steps :
      (j : ℕ) (schedule : List ℕ) (bs : List B) (w : W) (b' : B)
      → get_elem? (interleave f schedule bs w).0 j ≡ some b'
      → (b : B) × (get_elem? bs j ≡ some b) × Steps (turns j schedule) b b'
  unfolding interleave
  interleave-Steps j [] bs w b' h = (b', h, stay)
  interleave-Steps j (i ∷ schedule) bs w b' h =
      let (b₁, at, steps) =
        interleave-Steps j schedule (advance f i bs w).0 (advance f i bs w).1 b' h in
      elim (ℕ_discrete i j) [
        | yes p ↦
            let here = subst (λ x. get_elem? (advance f x bs w).0 j ≡ some b₁) p at in
            let (b, v, found, e) = advance_self j bs w b₁ here in
            (
              b,
              found,
              rw (if_pos _ p) (move v (subst (λ x. Steps (turns j schedule) x b') e steps)),
            )
        | no p ↦ (b₁, sym (advance_other i j bs w p) ∙ at, rw (if_neg _ p) steps)
      ]

-- A quantity that each step of a goroutine lowers, and one that no step raises.
module _ {B W : Type 0} (f : B → W → B × W) (μ : B → ℕ) where
  pub Steps-lower :
      ((b : B) (w : W) → μ (f b w).0 ≤ μ b - 1)
      → {n : ℕ} {b b' : B} → Steps f n b b'
      → μ b' ≤ μ b - n
  Steps-lower lowers (stay {b}) = omega arith
  Steps-lower lowers (move {n} {b} w steps) = omega (arith, Steps-lower lowers steps, lowers b w)

  pub Steps-le :
      ((b : B) (w : W) → μ (f b w).0 ≤ μ b) → {n : ℕ} {b b' : B} → Steps f n b b' → μ b' ≤ μ b
  Steps-le keeps stay = omega arith
  Steps-le keeps (move {b} w steps) = omega (arith, Steps-le keeps steps, keeps b w)

pub Steps-All :
    {B W : Type 0} (f : B → W → B × W) (P : B → Type 0)
    → ((b : B) (w : W) → P b → P (f b w).0)
    → {n : ℕ} {b b' : B} → Steps f n b b'
    → P b
    → P b'
Steps-All f P keeps stay p = p
Steps-All f P keeps (move {b} w steps) p = Steps-All f P keeps steps (keeps b w p)

pub All-get_elem? :
    {B : Type 0} (P : B → Type 0) (bs : List B)
    → ((j : ℕ) (b : B) → get_elem? bs j ≡ some b → P b)
    → All P bs
All-get_elem? P [] h = tt
All-get_elem? P (b ∷ bs) h = (h 0 b refl, All-get_elem? P bs (λ j. h (suc j)))

module _ {T A R : Type 0} where
  -- The steps that a branch can still make.
  abbrev pub measure : Branch T A R → ℕ
  measure (running rs) = 2 * length rs.next_work_items + length rs.completed_work_logs + 2
  measure (undoing rs) = length rs.completed_work_logs + 1
  measure (finished _ _) = 0

  -- The most work logs that the branch can come to hold.
  abbrev pub load : Branch T A R → ℕ
  load (running rs) = length rs.next_work_items + length rs.completed_work_logs
  load (undoing rs) = length rs.completed_work_logs
  load (finished _ rs) = length rs.completed_work_logs

  -- What an ended branch has reached.
  abbrev pub IsSound : Branch T A R → Type 0
  IsSound (finished (true, _) rs) = rs.next_work_items ≡ []
  IsSound (finished (false, none) rs) = rs.completed_work_logs ≡ []
  IsSound _ = Unit

module _ {T A R W : Type 0} (acts : Activities T A R W) where
  -- What a step does to the branch.
  abbrev Progress : Branch T A R → Branch T A R → Type 0
  Progress b b' = (measure b' ≤ measure b - 1) × (load b' ≤ load b) × IsSound b'

  -- One step of a running branch, by the items that are left.
  running_step :
      (logs : List (WorkLog T R)) (next : List (WorkItem T A)) (w : W)
      → let rs : RoutingSlip T A R = record {
        completed_work_logs = logs;
        next_work_items = next;
      } in
        Progress (running rs) (step acts (running rs) w).0
  unfolding step is_completed process_next
  running_step logs [] w = (omega arith, omega arith, refl)
  running_step logs (item ∷ rest) w = settled (acts.do_work item.activity_type item w).0 refl
    where
      before : RoutingSlip T A R
      before = record { completed_work_logs = logs; next_work_items = item ∷ rest }

      after : List (WorkLog T R) → RoutingSlip T A R
      after l = record { completed_work_logs = l; next_work_items = rest }

      settled :
          (o : WorkOutcome T R)
          → (acts.do_work item.activity_type item w).0 ≡ o
          → Progress (running before) (step acts (running before) w).0
      settled (done log) e =
          let moved : (step acts (running before) w).0 ≡ running (after (logs ++ log ∷ [])) =
            ground arith in
          let n = length-snoc {0} logs log in rw moved (omega (arith, n), omega (arith, n), tt)
      settled nothing e =
          let moved : (step acts (running before) w).0 ≡ undoing (after logs) = ground arith in
          rw moved (omega arith, omega arith, tt)
      settled (failed x) e =
          let moved : (step acts (running before) w).0 ≡ undoing (after logs) = ground arith in
          rw moved (omega arith, omega arith, tt)

  undoing_step :
      (rs : RoutingSlip T A R) (w : W)
      → Shrinks acts
      → Progress (undoing rs) (step acts (undoing rs) w).0
  unfolding step
  undoing_step rs w shrinks = elim (undo_last_cases acts rs w) [
    | inl (empty, idle) ↦ rw (idle, step) (omega arith, omega arith, empty)
    | inr (rest, log, split, busy, e) ↦
        let fewer : length (undo_last acts rs w).1.completed_work_logs
            < length rs.completed_work_logs =
          omega (
            arith,
            ap length split,
            length-snoc {0} rest log,
            shrinks log.activity_type log (record rs { completed_work_logs = rest }) w,
            ap (λ x. length x.1.completed_work_logs) e,
          ) in
        elim (Option-cases (undo_last acts rs w).0.1) [
          | inl fine ↦ rw (busy, fine, step) (omega arith, omega arith, tt)
          | inr (err, bad) ↦ rw (busy, bad, step) (omega arith, omega arith, tt)
        ]
  ]

  -- Each step of a branch brings it nearer to its end, and it ends sound.
  pub step_progress :
      (b : Branch T A R) (w : W)
      → Shrinks acts
      → (measure (step acts b w).0 ≤ measure b - 1)
        × (load (step acts b w).0 ≤ load b)
        × (IsSound b → IsSound (step acts b w).0)
  unfolding step
  step_progress (running rs) w shrinks =
      let (lower, le, sound) = running_step rs.completed_work_logs rs.next_work_items w in
      (lower, le, λ _. sound)
  step_progress (undoing rs) w shrinks =
      let (lower, le, sound) = undoing_step rs w shrinks in (lower, le, λ _. sound)
  step_progress (finished a rs) w shrinks = (omega arith, omega arith, λ sound. sound)

  -- The compensation of a branch comes nearer to its end with each step.
  pub compensate_step-le :
      (rs : RoutingSlip T A R) (w : W)
      → Shrinks acts
      → length (compensate_step acts rs w).0.completed_work_logs ≤ length rs.completed_work_logs - 1
  unfolding compensate_step
  compensate_step-le rs w shrinks = elim (undo_last_cases acts rs w) [
    | inl (empty, idle) ↦ rw (idle, compensate_step) (omega (arith, ap length empty))
    | inr (rest, log, split, busy, e) ↦
        rw (busy, compensate_step)
          (omega (
            arith,
            ap length split,
            length-snoc {0} rest log,
            shrinks log.activity_type log (record rs { completed_work_logs = rest }) w,
            ap (λ x. length x.1.completed_work_logs) e,
          ))
  ]
