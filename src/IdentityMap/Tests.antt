-- ===== src/IdentityMap/Tests.antt =====
-- Small runs of the identity map, and each property at a concrete input.
use ascetic_ddd_go.Base.{ℕ, ◌≡◌, ◌≤◌, refl, max, length, List, [], ◌∷◌, true, arith, ℕ_discrete}
use ascetic_ddd_go.Base.Assoc.{lookup, insert, delete}
use ascetic_ddd_go.IdentityMap
use ascetic_ddd_go.IdentityMap.Lru
use ascetic_ddd_go.IdentityMap.{
  IdentityMap, found, key_not_found, object_not_found, serializable, repeatable_reads,
  read_committed, strategy_of, serializable_strategy,
}
use ascetic_ddd_go.IdentityMap.Lru.Valid.{view, IsValid}
use ascetic_ddd_go.IdentityMap.Lru.Refines.{new_lru_cache-IsValid}
use ascetic_ddd_go.IdentityMap.Spec.{promised_strategy, Call, got, done, had, perform}
use ascetic_ddd_go.IdentityMap.Refinement.{run, run_promise, run_from, run-promise}
use ascetic_ddd_go.IdentityMap.Laws.{get-add, get-add_other, get-add_absent, length-add}

program : Unit {0}
unfolding IdentityMap.new IdentityMap.add IdentityMap.add_absent IdentityMap.get IdentityMap.has
    IdentityMap.remove Lru.add Lru.get lookup insert delete perform ℕ_discrete
program = tt

abbrev calls : List (Call ℕ ℕ)
calls =
    Call.add 1 10
    ∷ Call.add 2 20
    ∷ Call.get 1
    ∷ Call.add_absent 3
    ∷ Call.get 3
    ∷ Call.get 2
    ∷ Call.has 1
    ∷ []

-- Key 2 is the least recently used when key 3 comes in.
run-calls :
    (run ℕ_discrete (IdentityMap.new 2 serializable) calls).1
    ≡ done ∷ done ∷ got (found 10) ∷ done ∷ got object_not_found ∷ got key_not_found ∷ had true ∷ []
unfolding program run
run-calls = refl

run-promise_example :
    (run ℕ_discrete (IdentityMap.new 2 serializable) calls).1
    ≡ (run_promise ℕ_discrete
        (record { size = 2; strategy = promised_strategy serializable; entries = [] })
        calls).1
run-promise_example = run-promise ℕ_discrete 2 serializable calls

-- A full map: key 1 is the least recently used.
abbrev two : IdentityMap ℕ ℕ
two = (run ℕ_discrete (IdentityMap.new 2 serializable) (Call.add 1 10 ∷ Call.add 2 20 ∷ [])).0

two-IsValid : IsValid ℕ_discrete two.cache
unfolding run IdentityMap.new
two-IsValid =
    (run_from ℕ_discrete (IdentityMap.new 2 serializable) (Call.add 1 10 ∷ Call.add 2 20 ∷ [])
      (new_lru_cache-IsValid ℕ_discrete 2)).0

get-add_example : (IdentityMap.get ℕ_discrete (IdentityMap.add ℕ_discrete two 3 30) 3).1 ≡ found 30
unfolding program run
get-add_example = get-add ℕ_discrete two 3 two-IsValid 30 refl (omega arith)

get-add_other_example :
    (IdentityMap.get ℕ_discrete (IdentityMap.add ℕ_discrete two 3 30) 2).1
    ≡ (IdentityMap.get ℕ_discrete two 2).1
unfolding program run
get-add_other_example =
    get-add_other ℕ_discrete two 3 two-IsValid 30 2 refl (omega arith) (ground arith)

get-add_absent_example :
    ((IdentityMap.get ℕ_discrete (IdentityMap.add_absent ℕ_discrete two 3) 3).1 ≡ object_not_found)
    × ((IdentityMap.get ℕ_discrete
          (IdentityMap.set_isolation_level
            (IdentityMap.add_absent ℕ_discrete two 3)
            repeatable_reads)
          3).1
        ≡ key_not_found)
unfolding program run
get-add_absent_example = get-add_absent ℕ_discrete two 3 two-IsValid refl (omega arith)

length-add_example :
    length (view (IdentityMap.add ℕ_discrete two 3 30).cache)
    ≤ max two.cache.size (length (view two.cache))
length-add_example = length-add ℕ_discrete two 3 two-IsValid 30
