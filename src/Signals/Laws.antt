-- ===== src/Signals/Laws.antt =====
-- Attaching, detaching and notifying in asceticddd/signals.
use ascetic_ddd_go.Base.{
  ◌≡◌, ◌≢◌, ◌⊎◌, ap, inl, inr, All, refl, List, [], ◌∷◌, ◌++◌, Option, none, some, true, false,
  arith, ite,
}
use ascetic_ddd_go.Signals.{
  Observer, Entry, SignalImp, notify_all, notify, is_attached, attach_id, without, detach_id,
  composite_notify, Delegates, no_delegates, delegate, signal_imp, composite_signal_imp,
}

module _ {I V Err W : Type 0} where
  notify_all-append :
      (es fs : List (Entry I V Err W)) (event : V) (w : W)
      → notify_all (es ++ fs) event w ≡ (
          let out : Option Err × W = notify_all es event w in
          elim out.0 [ some err ↦ (some err, out.1) | none ↦ notify_all fs event out.1 ])
  unfolding notify_all
  notify_all-append [] fs event w = refl
  notify_all-append (e ∷ es) fs event w =
      ground (arith, notify_all-append es fs event (e.observer event w).1)

  -- All observers of the delegates, in order.
  abbrev pub all_observers : Delegates I V Err W → List (Entry I V Err W)
  all_observers no_delegates = []
  all_observers (delegate (signal_imp s) delegates) = s.observers ++ all_observers delegates
  all_observers (delegate (composite_signal_imp inner) delegates) =
      all_observers inner ++ all_observers delegates

  -- A composite signal notifies as one signal would with all observers of its delegates, one
  -- delegate after the other and those of a composite delegate in its place, up to the first
  -- error.
  pub composite_notify-all_observers :
      (delegates : Delegates I V Err W) (event : V) (w : W)
      → composite_notify delegates event w ≡ notify_all (all_observers delegates) event w
  unfolding composite_notify notify notify_all
  composite_notify-all_observers no_delegates event w = refl
  composite_notify-all_observers (delegate (signal_imp s) delegates) event w = ground (
    arith,
    notify_all-append s.observers (all_observers delegates) event w,
    composite_notify-all_observers delegates event (notify_all s.observers event w).1,
  )
  composite_notify-all_observers (delegate (composite_signal_imp inner) delegates) event w =
      ground (
        arith,
        notify_all-append (all_observers inner) (all_observers delegates) event w,
        composite_notify-all_observers inner event w,
        composite_notify-all_observers delegates event (notify_all (all_observers inner) event w).1,
      )

module _ {I V Err W : Type 0} (dec : Discrete I) where
  -- Each id is attached once.
  abbrev pub Distinct : List (Entry I V Err W) → Type 0
  Distinct [] = Unit
  Distinct (e ∷ es) = (is_attached dec e.id es ≡ false) × Distinct es

  is_attached-append :
      (id : I) (es : List (Entry I V Err W)) (e : Entry I V Err W)
      → is_attached dec id (es ++ e ∷ []) ≡ ite (dec e.id id) true (is_attached dec id es)
  unfolding is_attached
  is_attached-append id [] e = refl
  is_attached-append id (f ∷ es) e = ground (arith, is_attached-append id es e)

  append-Distinct :
      (es : List (Entry I V Err W)) (e : Entry I V Err W)
      → Distinct es
      → is_attached dec e.id es ≡ false
      → Distinct (es ++ e ∷ [])
  unfolding is_attached
  append-Distinct [] e h new = (refl, tt)
  append-Distinct (f ∷ es) e h new =
      ground (arith, is_attached-append f.id es e, append-Distinct es e h.1)

  is_attached-without :
      (id other : I) (es : List (Entry I V Err W))
      → is_attached dec other es ≡ false
      → is_attached dec other (without dec id es) ≡ false
  unfolding is_attached without
  is_attached-without id other [] h = refl
  is_attached-without id other (e ∷ es) h = ground (arith, is_attached-without id other es)

  without-Distinct :
      (id : I) (es : List (Entry I V Err W)) → Distinct es → Distinct (without dec id es)
  unfolding without
  without-Distinct id [] h = tt
  without-Distinct id (e ∷ es) h =
      ground (arith, without-Distinct id es h.1, is_attached-without id e.id es h.0)

  without-is_attached :
      (id : I) (es : List (Entry I V Err W))
      → Distinct es
      → is_attached dec id (without dec id es) ≡ false
  unfolding without is_attached
  without-is_attached id [] h = refl
  without-is_attached id (e ∷ es) h = ground (arith, without-is_attached id es h.1)

  without-append :
      (id : I) (es : List (Entry I V Err W)) (e : Entry I V Err W)
      → e.id ≡ id
      → is_attached dec id es ≡ false
      → without dec id (es ++ e ∷ []) ≡ es
  unfolding without is_attached
  without-append id [] e same h = ground arith
  without-append id (f ∷ es) e same h = ground (arith, without-append id es e same)

  -- If each id is attached at most once, it is so after attaching and after detaching; the id is
  -- attached after the one and not after the other.
  pub attach-Distinct :
      (id : I) (observer : Observer V Err W) (s : SignalImp I V Err W)
      → Distinct s.observers
      → Distinct (attach_id dec id observer s).observers
        × (is_attached dec id (attach_id dec id observer s).observers ≡ true)
        × Distinct (detach_id dec id s).observers
        × (is_attached dec id (detach_id dec id s).observers ≡ false)
  unfolding attach_id detach_id
  attach-Distinct id observer s h =
      let e : Entry I V Err W = record { id = id; observer = observer } in
      (
        ground (arith, append-Distinct s.observers e h),
        ground (arith, is_attached-append id s.observers e),
        without-Distinct id s.observers h,
        without-is_attached id s.observers h,
      )

  without-first :
      (id : I) (before after : List (Entry I V Err W)) (e : Entry I V Err W)
      → e.id ≡ id
      → All (λ f. f.id ≢ id) before
      → without dec id (before ++ e ∷ after) ≡ before ++ after
  unfolding without
  without-first id [] after e same others = ground arith
  without-first id (f ∷ before) after e same others =
      ground (arith, without-first id before after e same others.1)

  -- Nothing with the id, or a first entry with it.
  abbrev Split : I → List (Entry I V Err W) → Type 0
  Split id es =
      ((is_attached dec id es ≡ false) × All (λ f. f.id ≢ id) es)
      ⊎ ((is_attached dec id es ≡ true)
          × (before : List (Entry I V Err W)) × (e : Entry I V Err W) × (after : List
              (Entry I V Err W))
          × (es ≡ before ++ e ∷ after)
          × (e.id ≡ id)
          × All (λ f. f.id ≢ id) before)

  is_attached-Split : (id : I) (es : List (Entry I V Err W)) → Split id es
  unfolding is_attached
  is_attached-Split id [] = inl (refl, tt)
  is_attached-Split id (e ∷ es) = elim (dec e.id id) [
    | yes p ↦ inr (ground arith, [], e, es, refl, p, tt)
    | no p ↦ elim (is_attached-Split id es) [
      | inl (lacks, others) ↦ inl (ground (arith, lacks), (p, others))
      | inr (has, before, f, after, split, same, others) ↦
          inr (ground (arith, has), e ∷ before, f, after, ap (λ l. e ∷ l) split, same, (p, others))
    ]
  ]

  -- If no observer has the id, the new one is attached last, and detaching the id gives the signal
  -- back; otherwise nothing is attached, and detaching takes out the first with the id, only.
  abbrev pub Restored : I → Observer V Err W → SignalImp I V Err W → Type 0
  Restored id observer s =
      let attached : SignalImp I V Err W = attach_id dec id observer s in
      (All (λ f. f.id ≢ id) s.observers
        × (attached.observers ≡ s.observers ++ record { id = id; observer = observer } ∷ [])
        × (detach_id dec id attached ≡ s))
      ⊎ ((before : List (Entry I V Err W)) × (e : Entry I V Err W) × (after : List
            (Entry I V Err W))
          × (s.observers ≡ before ++ e ∷ after)
          × (e.id ≡ id)
          × All (λ f. f.id ≢ id) before
          × (attached ≡ s)
          × ((detach_id dec id attached).observers ≡ before ++ after))

  -- Attaching a second observer under an id changes nothing. If no observer has the id, the new
  -- one is attached last, and detaching the id gives the signal back; otherwise attaching changes
  -- nothing, and detaching takes out the first observer with the id and no other.
  pub detach-attach :
      (id : I) (observer other : Observer V Err W) (s : SignalImp I V Err W)
      → (attach_id dec id other (attach_id dec id observer s) ≡ attach_id dec id observer s)
        × Restored id observer s
  unfolding attach_id detach_id
  detach-attach id observer other s =
      let new : Entry I V Err W = record { id = id; observer = observer } in
      (
        ground (arith, is_attached-append id s.observers new),
        elim (is_attached-Split id s.observers) [
          | inl (lacks, others) ↦ inl (
            others,
            ground (arith, lacks),
            ground (arith, without-append id s.observers new refl lacks),
          )
          | inr (has, before, e, after, split, same, others) ↦ inr (
            before,
            e,
            after,
            split,
            same,
            others,
            ground (arith, has),
            ground (arith, has, split, without-first id before after e same others),
          )
        ],
      )
