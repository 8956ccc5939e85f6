-- ===== src/Stub/Exchange/Changes.antt =====
-- rest, remove and cancelSession of services/stub/main.go do to the view what the exchange does.
use iicpc_sh.Prelude.{
  ℕ, ◌≡◌, ◌<◌, refl, arith, sym, ◌∙◌, inl, inr, ap, subst, some, none, Option, Bool, false, ◌||◌,
  List, [], ◌∷◌, String, str_eq, str_eq_iff, if◌then◌else◌, Bool-cases, fun_ext,
}
use iicpc_sh.Prelude.Assoc.{lookup, lookup-insert, IsMap}
use iicpc_sh.Stub.Types.{Side, buy, sell, Order, limit}
use iicpc_sh.Stub.Heap
use iicpc_sh.Stub.Heap.{update}
use iicpc_sh.Stub.Heap.Priority.{erase}
use iicpc_sh.Stub.Book.{
  Orderbook, heap_of, rest, remove, remove_all, session_orders, cancel_session,
}
use iicpc_sh.Stub.Book.Sound.{IsSound, From-IsSound}
use iicpc_sh.Stub.Book.Resting.{stored-Pushed}
use iicpc_sh.Stub.Book.Shrinks.{set_heap-mem, set_heap-orders}
use iicpc_sh.Stub.Book.Steps.{on_map, remove-IsSound, rest-IsSound}
use iicpc_sh.Stub.Book.Drops.{remove-Drops}
use iicpc_sh.Stub.Session.Replies.{remove-lookup}
use iicpc_sh.Stub.Exchange.{view, order_at, Orders, put, take_out, clear_session}
use iicpc_sh.Stub.Exchange.View.{view-delete, view-none}

-- The map leads to addresses in use.
lookup-in_use :
    (ob : Orderbook) (id : String) (p : ℕ) → IsSound ob → lookup id ob.orders ≡ some p → p < ob.next
lookup-in_use ob id p sound e = elim (sound.map id p e).1 [
  | inl (k, q, at) ↦ subst (λ x. x < ob.next) at (sound.resting k q).in_use
  | inr (k, q, at) ↦ subst (λ x. x < ob.next) at (sound.others_resting k q).in_use
]

module _ (ob : Orderbook) (o : Order) (sound : IsSound ob) (type : o.order_type ≡ limit)
    (new : lookup o.order_id ob.orders ≡ none) where
  stored-kept :
      (s : Side)
      → o.side ≡ s
      → (p : ℕ)
      → erase ((Heap.push s (heap_of s (on_map ob o)) ob.next).mem p) ≡ erase ((on_map ob o).mem p)
  stored-kept buy side p =
      (stored-Pushed buy (heap_of buy ob) ob.asks ob.next ob.orders sound o side type new).kept p
  stored-kept sell side p =
      (stored-Pushed sell (heap_of sell ob) ob.bids ob.next ob.orders (From-IsSound sell ob sound) o
          side type new).kept
        p

  rest-kept : (p : ℕ) → erase ((rest ob o).mem p) ≡ erase ((on_map ob o).mem p)
  unfolding rest
  rest-kept p =
      ap (λ (mem : ℕ → Order). erase (mem p))
        (set_heap-mem o.side (on_map ob o)
          (Heap.push o.side (heap_of o.side (on_map ob o)) ob.next))
      ∙ stored-kept o.side refl p

  rest-orders :
      (j : String)
      → lookup j (rest ob o).orders
        ≡ (if str_eq o.order_id j then some ob.next else lookup j ob.orders)
  unfolding rest
  rest-orders j =
      rw
        (set_heap-orders o.side (Heap.push o.side (heap_of o.side (on_map ob o)) ob.next)
          (on_map ob o))
        (lookup-insert o.order_id j ob.next ob.orders)

  newest : (on_map ob o).mem ob.next ≡ o
  newest = ground arith

  older : (j : String) (p : ℕ) → lookup j ob.orders ≡ some p → (on_map ob o).mem p ≡ ob.mem p
  older j p found = ground (arith, lookup-in_use ob j p sound found)

  rested_at :
      (j : String) (found : Option ℕ)
      → lookup j ob.orders ≡ found
      → order_at (rest ob o).mem found ≡ order_at ob.mem found
  rested_at j none e = refl
  rested_at j (some p) e = ap some (rest-kept p ∙ ap erase (older j p e))

  pub rest-view : view (rest ob o) ≡ put (erase o) (view ob)
  unfolding view
  rest-view = fun_ext (λ j. elim (Bool-cases (str_eq o.order_id j)) [
    | inl mine ↦ rw (rest-orders j) (rw mine (ap some (rest-kept ob.next ∙ ap erase newest)))
    | inr other ↦ rw (rest-orders j) (rw other (rested_at j (lookup j ob.orders) refl))
  ])

-- A removal takes the named order out of the exchange, if it is there.
pub remove-view :
    (ob : Orderbook) (id : String) → IsSound ob → view (remove ob id) ≡ take_out id (view ob)
remove-view ob id sound =
    view-delete ob (remove ob id) (remove-Drops ob id sound).kept id (remove-lookup ob id)

-- The id stands on the list.
unfoldable pub names : String → List String → Bool
names j [] = false
names j (id ∷ ids) = str_eq id j || names j ids

remove_all-view :
    (ob : Orderbook) (ids : List String) (j : String)
    → IsSound ob
    → view (remove_all ob ids) j ≡ (if names j ids then none else view ob j)
unfolding remove_all names
remove_all-view ob [] j sound = refl
remove_all-view ob (id ∷ ids) j sound =
    let after = remove_all-view (remove ob id) ids j (remove-IsSound ob id sound) in
    let now = ap (λ (b : Orders). b j) (remove-view ob id sound) in
    elim (Bool-cases (str_eq id j)) [
      | inl mine ↦ ground (arith, after, now)
      | inr other ↦ ground (arith, after, now)
    ]

-- Whether the found order is of the session.
abbrev of_session : (ℕ → Order) → String → Option ℕ → Bool
of_session mem session none = false
of_session mem session (some p) = str_eq (mem p).session_id session

-- On a map whose keys are the ids of the orders, the session's orders are found by their ids.
session_orders-names :
    (mem : ℕ → Order) (session : String) (m : List (String × ℕ)) (j : String)
    → IsMap m
    → ((k : String) (p : ℕ) → lookup k m ≡ some p → (mem p).order_id ≡ k)
    → names j (session_orders mem session m) ≡ of_session mem session (lookup j m)
unfolding session_orders names lookup IsMap
session_orders-names mem session [] j h ids = refl
session_orders-names mem session ((k, p) ∷ m) j (new, h) ids =
    let below =
      session_orders-names mem session m j h
        (λ k' p' e. ids k' p' (ground (arith, str_eq_iff k k'))) in
    let id : (mem p).order_id ≡ k = ids k p (ground (arith, str_eq_iff k k)) in
    elim (Bool-cases (str_eq (mem p).session_id session)) [
      | inl own ↦ elim (Bool-cases (str_eq k j)) [
        | inl here ↦ rw own (rw here (rw id (rw here (sym own))))
        | inr there ↦ rw own (rw there (rw id (rw there below)))
      ]
      | inr other ↦ elim (Bool-cases (str_eq k j)) [
        | inl here ↦
            let same : k ≡ j = (str_eq_iff k j).0 here in
            let absent = ap (of_session mem session) (subst (λ x. lookup x m ≡ none) same new) in
            rw other (rw here (below ∙ absent ∙ sym other))
        | inr there ↦ rw other (rw there below)
      ]
    ]

cleared_at :
    (ob : Orderbook) (session : String) (found : Option ℕ)
    → (if of_session ob.mem session found then none else order_at ob.mem found)
      ≡ (elim (order_at ob.mem found) [
        | none ↦ none
        | some o ↦ if str_eq o.session_id session then none else some o
      ])
cleared_at ob session none = refl
cleared_at ob session (some p) = refl

-- The end of a session takes its orders out of the exchange, and no others.
pub cancel_session-view :
    (ob : Orderbook) (session : String)
    → IsSound ob
    → IsMap ob.orders
    → view (cancel_session ob session) ≡ clear_session session (view ob)
unfolding cancel_session view
cancel_session-view ob session sound keys = fun_ext (λ j.
    let ids = session_orders-names ob.mem session ob.orders j keys (λ k p e. (sound.map k p e).0) in
    remove_all-view ob (session_orders ob.mem session ob.orders) j sound
    ∙ rw ids (cleared_at ob session (lookup j ob.orders)))

take_out-put : (o : Order) (b : Orders) → b o.order_id ≡ none → take_out o.order_id (put o b) ≡ b
take_out-put o b new = fun_ext (λ j. elim (Bool-cases (str_eq o.order_id j)) [
  | inl mine ↦ rw mine (sym (subst (λ x. b x ≡ none) ((str_eq_iff o.order_id j).0 mine) new))
  | inr other ↦ rw other refl
])

-- On a sound book, a new limit order that comes to rest and is removed again leaves the resting orders
-- as they were, wherever the heap moved it and the others in between.
pub remove-rest :
    (ob : Orderbook) (o : Order)
    → IsSound ob
    → o.order_type ≡ limit
    → lookup o.order_id ob.orders ≡ none
    → view (remove (rest ob o) o.order_id) ≡ view ob
remove-rest ob o sound type new =
    remove-view (rest ob o) o.order_id (rest-IsSound ob o sound type new)
    ∙ ap (take_out o.order_id) (rest-view ob o sound type new)
    ∙ take_out-put (erase o) (view ob) (view-none ob o.order_id new)
