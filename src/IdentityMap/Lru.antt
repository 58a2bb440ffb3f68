-- ===== src/IdentityMap/Lru.antt =====
-- asceticddd/session/identitymap/lru_cache.go: `lruCache`, a Go map from keys to the elements of a
-- `container/list`, oldest first. An element is a pointer: it has an identity, drawn from the
-- counter `next`, and the list methods find it by that. A negative size acts as size 0, so sizes
-- are natural numbers.
pub mod Order
pub mod Valid
pub mod Recency
pub mod Refines
use ascetic_ddd_go.Base.{
  ℕ, suc, List, [], ◌∷◌, ◌++◌, Option, none, some, Bool, true, false, ite, ℕ_discrete, length, ltb,
  if◌then◌else◌,
}
use ascetic_ddd_go.Base.Assoc.{lookup, insert, delete}

-- A `*list.Element` with the `lruEntry` that it holds.
pub record Element (K V : Type 0) : Type 0 where
  pub id : ℕ
  pub key : K
  pub value : V

-- `Element.Value` through the pointer.
module _ {K V : Type 0} where
  unfoldable pub find : ℕ → List (Element K V) → Option (Element K V)
  find i [] = none
  find i (e ∷ es) = ite (ℕ_discrete e.id i) (some e) (find i es)

  -- `list.Remove`.
  unfoldable pub unlink : ℕ → List (Element K V) → List (Element K V)
  unlink i [] = []
  unlink i (e ∷ es) = ite (ℕ_discrete e.id i) es (e ∷ unlink i es)

  -- `list.MoveToBack`, the element's value being `e`.
  unfoldable pub move_to_back : Element K V → List (Element K V) → List (Element K V)
  unfolding unlink
  move_to_back e es = unlink e.id es ++ e ∷ []

pub record LruCache (K V : Type 0) : Type 0 where
  pub items : List (K × ℕ)
  pub order : List (Element K V)
  pub size : ℕ
  pub next : ℕ

unfoldable pub new_lru_cache : {K V : Type 0} → ℕ → LruCache K V
new_lru_cache size = record { items = []; order = []; size = size; next = 0 }

module _ {K V : Type 0} (dec : Discrete K) where
  -- The end of `add`: the map has outgrown the size, so the front element goes.
  unfoldable pub evict : LruCache K V → LruCache K V
  evict c = elim c.order [
    | [] ↦ c
    | front ∷ rest ↦
        if ltb c.size (length c.items)
        then record c { order = rest; items = delete dec front.key c.items }
        else c
  ]

  unfoldable pub push : LruCache K V → K → V → LruCache K V
  push c key value =
      let e : Element K V = record { id = c.next; key = key; value = value } in
      record c {
        items = insert dec key c.next c.items;
        order = c.order ++ e ∷ [];
        next = suc c.next;
      }

  unfoldable pub add : LruCache K V → K → V → LruCache K V
  unfolding evict push move_to_back
  add c key value = elim (lookup dec key c.items) [
    | some elem ↦ record c {
      order = move_to_back (record { id = elem; key = key; value = value }) c.order;
    }
    | none ↦ evict (push c key value)
  ]

  unfoldable pub get : LruCache K V → K → LruCache K V × Option V
  unfolding find move_to_back
  get c key = elim (lookup dec key c.items) [
    | none ↦ (c, none)
    | some elem ↦ elim (find elem c.order) [
      | none ↦ (c, none)
      | some e ↦ (record c { order = move_to_back e c.order }, some e.value)
    ]
  ]

  unfoldable pub remove : LruCache K V → K → LruCache K V
  unfolding unlink
  remove c key = elim (lookup dec key c.items) [
    | none ↦ c
    | some elem ↦ record c { items = delete dec key c.items; order = unlink elem c.order }
  ]

  unfoldable pub has : LruCache K V → K → Bool
  has c key = elim (lookup dec key c.items) [ none ↦ false | some _ ↦ true ]

unfoldable pub clear : {K V : Type 0} → LruCache K V → LruCache K V
clear c = record c { items = []; order = [] }

unfoldable pub set_size : {K V : Type 0} → LruCache K V → ℕ → LruCache K V
set_size c size = record c { size = size }
