-- ===== src/Mediator/Laws.antt =====
-- Registrations, subscriptions and pipelines of asceticddd/mediator/mediator.go, and what a
-- request or an event meets afterwards.
use ascetic_ddd_go.Base.{
  ◌≡◌, ◌≢◌, refl, ap, ◌∙◌, append-nil, append_assoc, List, [], ◌∷◌, ◌++◌, foldl, reverse,
  reverse-cons, Option, none, some, arith, ite, Option-cases, inl, inr,
}
use ascetic_ddd_go.Base.Assoc.{lookup, lookup-insert, lookup-delete}
use ascetic_ddd_go.Mediator.{
  returned, Handler, Pipeline, EventHandler, SubscriberEntry, MediatorImp, or_empty, wrap_pipeline,
  wrap_all, publish_all, without_key, execute_pipelines, send, publish, register, unregister,
  subscribe, unsubscribe,
}

foldl-snoc :
    {A B : Type 0} (f : B → A → B) (b : B) (xs : List A) (x : A)
    → foldl f b (xs ++ x ∷ []) ≡ f (foldl f b xs) x
foldl-snoc f b [] x = refl
foldl-snoc f b (y ∷ xs) x = foldl-snoc f (f b y) xs x

module _ {Q S R Err W : Type 0} where
  -- Each pipeline has those after it, and the handler at last, as its `next`.
  abbrev pub around : List (Pipeline Q S R Err W) → Handler Q S R Err W → Handler Q S R Err W
  around [] handler = handler
  around (p ∷ ps) handler = λ session request. p session request (around ps handler)

  wrap_all-around :
      (ps : List (Pipeline Q S R Err W)) (handler : Handler Q S R Err W)
      → wrap_all ps handler ≡ around ps handler
  unfolding wrap_all wrap_pipeline
  wrap_all-around [] handler = refl
  wrap_all-around (p ∷ ps) handler =
      ap (foldl (λ current pipeline. wrap_pipeline pipeline current) handler) (reverse-cons p ps)
      ∙ foldl-snoc (λ current pipeline. wrap_pipeline pipeline current) handler (reverse ps) p
      ∙ ap (wrap_pipeline p) (wrap_all-around ps handler)

module _ {Q S Err W : Type 0} where
  -- One subscriber more is called last, if none before it fails.
  abbrev pub then_call : EventHandler Q S Err W → S → Q → Option Err × W → Option Err × W
  then_call handler session event out = elim out.0 [
    | some err ↦ (some err, out.1)
    | none ↦ handler session event out.1
  ]

module _ {Q S Err W K : Type 0} where
  publish_all-snoc :
      (es : List (SubscriberEntry Q S Err W K)) (e : SubscriberEntry Q S Err W K) (session : S)
      (event : Q) (w : W)
      → publish_all (es ++ e ∷ []) session event w
        ≡ then_call e.handler session event (publish_all es session event w)
  unfolding publish_all
  publish_all-snoc [] e session event w = elim (Option-cases (e.handler session event w).0) [
    | inl h ↦ ground (arith, h)
    | inr (err, h) ↦ ground (arith, h)
  ]
  publish_all-snoc (f ∷ es) e session event w =
      ground (arith, publish_all-snoc es e session event (f.handler session event w).1)

  abbrev pub NoKey : K → List (SubscriberEntry Q S Err W K) → Type 0
  NoKey key [] = Unit
  NoKey key (e ∷ es) = (e.key ≢ key) × NoKey key es

  without_key-first :
      (dec : Discrete K) (e : SubscriberEntry Q S Err W K)
      (es after : List (SubscriberEntry Q S Err W K))
      → NoKey e.key es
      → without_key dec e.key (es ++ e ∷ after) ≡ es ++ after
  unfolding without_key
  without_key-first dec e [] after h = ground arith
  without_key-first dec e (f ∷ es) after h = ground (arith, without_key-first dec e es after h.1)

module _ {Q Ty S R Err W K : Type 0} (dec : Discrete Ty) (key_dec : Discrete K)
    (type_of : Q → Ty) where
  -- The subscribers to a type, and its pipelines.
  abbrev pub subscribers_of : MediatorImp Q Ty S R Err W K → Ty → List (SubscriberEntry Q S Err W K)
  subscribers_of m t = or_empty (lookup dec t m.subscribers)

  abbrev pub pipelines_of : MediatorImp Q Ty S R Err W K → Ty → List (Pipeline Q S R Err W)
  pipelines_of m t = m.broadcast_pipelines ++ or_empty (lookup dec t m.pipelines)

  -- After a handler is registered for a type, a request of that type runs the broadcast pipelines
  -- and then those of the type, each around the next in the order of their addition, with the
  -- handler inside; requests of other types are sent as before.
  pub send-register :
      (m : MediatorImp Q Ty S R Err W K) (t : Ty) (handler : Handler Q S R Err W) (session : S)
      (request : Q) (w : W)
      → send dec key_dec type_of (register dec key_dec type_of m t handler) session request w
        ≡ ite
            (dec t (type_of request))
            (around (pipelines_of m (type_of request)) handler session request w)
            (send dec key_dec type_of m session request w)
  unfolding send register execute_pipelines
  send-register m t handler session request w = ground (
    arith,
    lookup-insert dec t (type_of request) handler m.handlers,
    wrap_all-around (pipelines_of m (type_of request)) handler,
  )

  -- After the handler of a type is unregistered, a request of that type gets nil and changes
  -- nothing, and requests of other types are sent as before.
  pub send-unregister :
      (m m' : MediatorImp Q Ty S R Err W K) (t : Ty) (session : S) (request : Q) (w : W)
      → unregister dec key_dec type_of m t ≡ some m'
      → send dec key_dec type_of m' session request w
        ≡ ite
            (dec t (type_of request))
            (returned none, w)
            (send dec key_dec type_of m session request w)
  unfolding send unregister execute_pipelines
  send-unregister m m' t session request w h = elim (Option-cases (lookup dec t m.handlers)) [
    | inl missing ↦ ground (arith, missing, h)
    | inr (_, found) ↦ ground (arith, found, h, lookup-delete dec t (type_of request) m.handlers)
  ]

  -- A new subscriber to a type is called after the others of the type, unless one of them fails;
  -- events of other types are published as before.
  pub publish-subscribe :
      (m : MediatorImp Q Ty S R Err W K) (t : Ty) (key : K) (handler : EventHandler Q S Err W)
      (session : S) (event : Q) (w : W)
      → publish dec key_dec type_of (subscribe dec key_dec type_of m t key handler) session event w
        ≡ ite
            (dec t (type_of event))
            (then_call handler session event (publish dec key_dec type_of m session event w))
            (publish dec key_dec type_of m session event w)
  unfolding publish subscribe
  publish-subscribe m t key handler session event w =
      let e : SubscriberEntry Q S Err W K = record { key = key; handler = handler } in
      ground (
        arith,
        lookup-insert dec t (type_of event) (subscribers_of m t ++ e ∷ []) m.subscribers,
        publish_all-snoc (subscribers_of m (type_of event)) e session event w,
      )

  -- Subscribes the entries to the type, one after the other.
  abbrev pub subscribe_all :
      MediatorImp Q Ty S R Err W K
      → Ty
      → List (SubscriberEntry Q S Err W K)
      → MediatorImp Q Ty S R Err W K
  subscribe_all m t [] = m
  subscribe_all m t (e ∷ es) =
      subscribe_all (subscribe dec key_dec type_of m t e.key e.handler) t es

  subscribe_all-subscribers_of :
      (m : MediatorImp Q Ty S R Err W K) (t u : Ty) (es : List (SubscriberEntry Q S Err W K))
      → subscribers_of (subscribe_all m t es) u
        ≡ ite (dec t u) (subscribers_of m t ++ es) (subscribers_of m u)
  unfolding subscribe
  subscribe_all-subscribers_of m t u [] = elim (dec t u) [
    | yes p ↦ ground (arith, p, append-nil (subscribers_of m t))
    | no p ↦ ground (arith, p)
  ]
  subscribe_all-subscribers_of m t u (e ∷ es) = ground (
    arith,
    subscribe_all-subscribers_of (subscribe dec key_dec type_of m t e.key e.handler) t u es,
    lookup-insert dec t t (subscribers_of m t ++ e ∷ []) m.subscribers,
    lookup-insert dec t u (subscribers_of m t ++ e ∷ []) m.subscribers,
    append_assoc (subscribers_of m t) (e ∷ []) es,
  )

  unsubscribe-subscribers_of :
      (m : MediatorImp Q Ty S R Err W K) (t u : Ty) (key : K)
      → subscribers_of (unsubscribe dec key_dec type_of m t key) u
        ≡ ite (dec t u) (without_key key_dec key (subscribers_of m t)) (subscribers_of m u)
  unfolding unsubscribe without_key
  unsubscribe-subscribers_of m t u key = elim (Option-cases (lookup dec t m.subscribers)) [
    | inl missing ↦ elim (dec t u) [
      | yes p ↦ ground (arith, missing, p)
      | no p ↦ ground (arith, missing, p)
    ]
    | inr (es, found) ↦
        ground (arith, found, lookup-insert dec t u (without_key key_dec key es) m.subscribers)
  ]

  -- If no subscriber to the type has the key of a handler, then subscribing the handler,
  -- subscribing any others to the type after it, under any keys, and unsubscribing the handler
  -- makes any event do what it does when only the others are subscribed; with no others, what it
  -- did before.
  pub publish-unsubscribe :
      (m : MediatorImp Q Ty S R Err W K) (t : Ty) (key : K) (handler : EventHandler Q S Err W)
      (after : List (SubscriberEntry Q S Err W K)) (session : S) (event : Q) (w : W)
      → NoKey key (subscribers_of m t)
      → publish dec key_dec type_of
          (unsubscribe dec key_dec type_of
            (subscribe_all (subscribe dec key_dec type_of m t key handler) t after)
            t
            key)
          session
          event
          w
        ≡ publish dec key_dec type_of (subscribe_all m t after) session event w
  unfolding publish
  publish-unsubscribe m t key handler after session event w h =
      let e : SubscriberEntry Q S Err W K = record { key = key; handler = handler } in
      let u : Ty = type_of event in
      ground (
        arith,
        unsubscribe-subscribers_of (subscribe_all m t (e ∷ after)) t u key,
        subscribe_all-subscribers_of m t t (e ∷ after),
        subscribe_all-subscribers_of m t u (e ∷ after),
        subscribe_all-subscribers_of m t u after,
        without_key-first key_dec e (subscribers_of m t) after h,
      )
