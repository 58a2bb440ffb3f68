-- ===== src/Saga/Serialization.antt =====
-- asceticddd/saga/routing_slip_serialization.go and serializable_routing_slip.go, over the interface
-- `ActivityTypeResolver`, of which Saga/Resolver.antt is one implementation.
pub mod Laws
use ascetic_ddd_go.Base.{ℕ, suc, List, [], ◌∷◌, Option, none, some}
use ascetic_ddd_go.Saga.{RoutingSlip, WorkItem, WorkLog, Activities, new_work_log, new_work_item}

-- The interface; `none` is an error.
pub record ActivityTypeResolver (T N : Type 0) : Type 0 where
  pub resolve : N → Option T
  pub get_name : T → Option N

pub record SerializableWorkItem (N A : Type 0) : Type 0 where
  pub activity_type_name : N
  pub arguments : A

pub record SerializableWorkLog (N R : Type 0) : Type 0 where
  pub activity_type_name : N
  pub result : R

pub record SerializableRoutingSlip (N A R : Type 0) : Type 0 where
  pub completed_work_logs : List (SerializableWorkLog N R)
  pub next_work_items : List (SerializableWorkItem N A)

-- Which log or item the resolver has no answer for.
pub data Error : Type 0 where
  work_log work_item : ℕ → Error

pub data Result (A : Type 0) : Type 0 where
  ok : A → Result A
  err : Error → Result A

infixl 5 ◌>>=◌
abbrev pub ◌>>=◌ : {A B : Type 0} → Result A → (A → Result B) → Result B
ok a >>= f = f a
err e >>= f = err e

-- `cannot serialize …: %w`, or the name.
abbrev pub or_error : {A : Type 0} → Option A → Error → Result A
or_error none e = err e
or_error (some a) e = ok a

module _ {T N R : Type 0} (resolver : ActivityTypeResolver T N) where
  unfoldable pub serialize_logs : ℕ → List (WorkLog T R) → Result (List (SerializableWorkLog N R))
  serialize_logs i [] = ok []
  serialize_logs i (log ∷ logs) = do
    name ← or_error (resolver.get_name log.activity_type) (work_log i)
    rest ← serialize_logs (suc i) logs
    ok (record { activity_type_name = name; result = log.result } ∷ rest)

  unfoldable pub restore_logs :
      {A W : Type 0}
      → Activities T A R W
      → ℕ
      → List (SerializableWorkLog N R)
      → Result (List (WorkLog T R))
  unfolding new_work_log
  restore_logs acts i [] = ok []
  restore_logs acts i (log ∷ logs) = do
    t ← or_error (resolver.resolve log.activity_type_name) (work_log i)
    rest ← restore_logs acts (suc i) logs
    ok (new_work_log acts t log.result ∷ rest)

module _ {T N A : Type 0} (resolver : ActivityTypeResolver T N) where
  unfoldable pub serialize_items :
      ℕ → List (WorkItem T A) → Result (List (SerializableWorkItem N A))
  serialize_items i [] = ok []
  serialize_items i (item ∷ items) = do
    name ← or_error (resolver.get_name item.activity_type) (work_item i)
    rest ← serialize_items (suc i) items
    ok (record { activity_type_name = name; arguments = item.arguments } ∷ rest)

  unfoldable pub restore_items : ℕ → List (SerializableWorkItem N A) → Result (List (WorkItem T A))
  unfolding new_work_item
  restore_items i [] = ok []
  restore_items i (item ∷ items) = do
    t ← or_error (resolver.resolve item.activity_type_name) (work_item i)
    rest ← restore_items (suc i) items
    ok (new_work_item t item.arguments ∷ rest)

module _ {T N A R W : Type 0} (acts : Activities T A R W)
    (resolver : ActivityTypeResolver T N) where
  unfoldable pub to_serializable : RoutingSlip T A R → Result (SerializableRoutingSlip N A R)
  to_serializable rs = do
    logs ← serialize_logs resolver 0 rs.completed_work_logs
    items ← serialize_items resolver 0 rs.next_work_items
    ok (record { completed_work_logs = logs; next_work_items = items })

  unfoldable pub from_serializable : SerializableRoutingSlip N A R → Result (RoutingSlip T A R)
  from_serializable srs = do
    logs ← restore_logs resolver acts 0 srs.completed_work_logs
    items ← restore_items resolver 0 srs.next_work_items
    ok (record { completed_work_logs = logs; next_work_items = items })
