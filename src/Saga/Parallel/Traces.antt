-- ===== src/Saga/Parallel/Traces.antt =====
-- The goroutines of parallel_activity.go with the worlds that each of their steps finds and leaves:
-- an interleaving puts the steps of all goroutines in one order, each from the world that the one
-- before it has left.
use ascetic_ddd_go.Base.{ℕ, zero, suc, ◌≡◌, refl, ap, subst, List, [], ◌∷◌, ◌++◌, map, All}
use ascetic_ddd_go.Saga.Parallel.{advance, interleave}

-- The steps of a goroutine, each with the world before and after it.
abbrev pub Trace : Type 0 → Type 0
Trace W = List (W × W)

-- The elements of three lists are in the relation, in order.
abbrev pub Together : {A B C : Type 0} → (A → B → C → Type 0) → List A → List B → List C → Type 0
Together R [] [] [] = Unit
Together R (a ∷ as') (b ∷ bs) (c ∷ cs) = R a b c × Together R as' bs cs
Together R _ _ _ = ¬ Unit

pub Together-map :
    {A A' B C : Type 0} (R : A' → B → C → Type 0) (S : A → B → C → Type 0) (P : C → Type 0)
    (f : A → A')
    → ((a : A) (b : B) (c : C) → R (f a) b c → P c → S a b c)
    → (as' : List A) (bs : List B) (cs : List C) → Together R (map f as') bs cs
    → All P cs
    → Together S as' bs cs
Together-map R S P f h [] [] [] r p = tt
Together-map R S P f h (a ∷ as') (b ∷ bs) (c ∷ cs) r p =
    (h a b c r.0 p.0, Together-map R S P f h as' bs cs r.1 p.1)
Together-map R S P f h [] [] (c ∷ cs) r p = absurd (r tt)
Together-map R S P f h [] (b ∷ bs) cs r p = absurd (r tt)
Together-map R S P f h (a ∷ as') [] cs r p = absurd (r tt)
Together-map R S P f h (a ∷ as') (b ∷ bs) [] r p = absurd (r tt)

-- The traces are the parts of one sequence of steps from a world to a world.
pub data Woven {W : Type 0} : List (Trace W) → W → W → Type 0 where
  ended : {ts : List (Trace W)} {w : W} → All (λ t. t ≡ []) ts → Woven ts w w
  next :
      {w w₁ w' : W} (before : List (Trace W)) (t : Trace W) (after : List (Trace W))
      → Woven (before ++ t ∷ after) w₁ w'
      → Woven (before ++ ((w, w₁) ∷ t) ∷ after) w w'

module _ {B W : Type 0} (f : B → W → B × W) where
  pub data Walk : B → Trace W → B → Type 0 where
    stay : {b : B} → Walk b [] b
    move : {b b' : B} {t : Trace W} (w : W) → Walk (f b w).0 t b' → Walk b ((w, (f b w).1) ∷ t) b'

  all_stay : (bs : List B) → (ts : List (Trace W)) × Together Walk bs ts bs × All (λ t. t ≡ []) ts
  all_stay [] = ([], tt, tt)
  all_stay (b ∷ bs) =
      let (ts, walks, empty) = all_stay bs in ([] ∷ ts, (stay, walks), (refl, empty))

  append-snoc :
      (before : List (Trace W)) (t : Trace W) (ts : List (Trace W))
      → (before ++ t ∷ []) ++ ts ≡ before ++ t ∷ ts
  append-snoc [] t ts = refl
  append-snoc (u ∷ before) t ts = ap (λ l. u ∷ l) (append-snoc before t ts)

  advance-Woven :
      (i : ℕ) (bs : List B) (w : W) (before ts : List (Trace W)) (bs' : List B) (w' : W)
      → Together Walk (advance f i bs w).0 ts bs'
      → Woven (before ++ ts) (advance f i bs w).1 w'
      → (ts' : List (Trace W)) × Together Walk bs ts' bs' × Woven (before ++ ts') w w'
  unfolding advance
  advance-Woven i [] w before ts bs' w' walks woven = (ts, walks, woven)
  advance-Woven zero (b ∷ bs) w before (t ∷ ts) (b' ∷ bs') w' walks woven =
      (((w, (f b w).1) ∷ t) ∷ ts, (move w walks.0, walks.1), next before t ts woven)
  advance-Woven (suc i) (b ∷ bs) w before (t ∷ ts) (b' ∷ bs') w' walks woven =
      let (ts', walks', woven') =
        advance-Woven i bs w (before ++ t ∷ []) ts bs' w' walks.1
          (rw (append-snoc before t ts) woven) in
      (t ∷ ts', (walks.0, walks'), subst (λ l. Woven l w w') (append-snoc before t ts') woven')
  advance-Woven zero (b ∷ bs) w before [] bs' w' walks woven = absurd (walks tt)
  advance-Woven zero (b ∷ bs) w before (t ∷ ts) [] w' walks woven = absurd (walks tt)
  advance-Woven (suc i) (b ∷ bs) w before [] bs' w' walks woven = absurd (walks tt)
  advance-Woven (suc i) (b ∷ bs) w before (t ∷ ts) [] w' walks woven = absurd (walks tt)

  -- The goroutines walk where the interleaving leaves them, and their steps are woven into it.
  pub interleave-Woven :
      (schedule : List ℕ) (bs : List B) (w : W)
      → (ts : List (Trace W)) × Together Walk bs ts (interleave f schedule bs w).0
        × Woven ts w (interleave f schedule bs w).1
  unfolding interleave
  interleave-Woven [] bs w = let (ts, walks, empty) = all_stay bs in (ts, walks, ended empty)
  interleave-Woven (i ∷ schedule) bs w =
      let (ts, walks, woven) =
        interleave-Woven schedule (advance f i bs w).0 (advance f i bs w).1 in
      advance-Woven i bs w [] ts _ _ walks woven
