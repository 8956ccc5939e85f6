-- ===== src/Stub/Book/Steps.antt =====
-- Every operation of the order book keeps it sound.
use iicpc_sh.Prelude.{
  ℕ, zero, suc, ◌-◌, ◌≡◌, ◌<◌, refl, arith, sym, ◌∙◌, inl, inr, some, none, ap, List, [], ◌∷◌,
  String, Bool-cases, Option-cases, subst, ◌==◌, length, lt→ltb,
}
use iicpc_sh.Prelude.Assoc.{lookup, insert, delete}
use iicpc_sh.Stub.Types.{Side, buy, sell, Order, limit}
use iicpc_sh.Stub.Clock.{Clock}
use iicpc_sh.Stub.Heap.{Heap, ptr_at, update}
use iicpc_sh.Stub.Heap
use iicpc_sh.Stub.Heap.Laws.{pop-Removed, remove-Removed, fix-root}
use iicpc_sh.Stub.Book.{
  Orderbook, Matching, opposite, heap_of, set_heap, best, can_fill, fill_best, match_loop, rounds,
  match, fill_qty, lower_best, drop_best, fix_best, book_after, rest, remove, remove_at, remove_all,
  cancel_session, new_orderbook, session_orders,
}
use iicpc_sh.Stub.Book.Loop.{depth, depth-lower_best, start}
use iicpc_sh.Stub.Book.Sound.{From, IsSound, From-IsSound, IsSound-From}
use iicpc_sh.Stub.Book.Removal.{removed-Sides}
use iicpc_sh.Stub.Book.Changes.{remaining-Sides, moved-Sides}
use iicpc_sh.Stub.Book.Resting.{pushed-Sides}

pub lower_best-IsSound : (m : Matching) → IsSound m.book → IsSound (lower_best m)
unfolding lower_best
lower_best-IsSound m sound =
    remaining-Sides buy (heap_of buy m.book) m.book.asks m.book.next m.book.orders sound _
      (λ p. ground arith)

-- Dropping the order at the root, under its own id.
drop_best-From :
    (s : Side) (ob : Orderbook)
    → From s ob
    → 0 < depth s ob
    → From s (drop_best s (ob.mem (ptr_at (heap_of s ob) 0)).order_id ob)
unfolding drop_best
drop_best-From buy ob sound some_left =
    removed-Sides buy (heap_of buy ob) _ 0 ob.asks ob.next ob.orders sound some_left
      (pop-Removed buy (heap_of buy ob) sound.ordered some_left)
drop_best-From sell ob sound some_left =
    removed-Sides sell (heap_of sell ob) _ 0 ob.bids ob.next ob.orders sound some_left
      (pop-Removed sell (heap_of sell ob) sound.ordered some_left)

fix_best-From : (s : Side) (ob : Orderbook) → From s ob → 0 < depth s ob → From s (fix_best s ob)
unfolding fix_best
fix_best-From buy ob sound some_left =
    let (moves, ord) = fix-root buy (heap_of buy ob) sound.ordered some_left in
    moved-Sides buy (heap_of buy ob) ob.asks ob.next ob.orders sound _ moves ord
fix_best-From sell ob sound some_left =
    let (moves, ord) = fix-root sell (heap_of sell ob) sound.ordered some_left in
    moved-Sides sell (heap_of sell ob) ob.bids ob.next ob.orders sound _ moves ord

-- The book of which `remove` takes the order at place `k` of side `s`.
abbrev off_map : Side → Orderbook → ℕ → Orderbook
off_map s ob k = record ob { orders = delete (ob.mem (ptr_at (heap_of s ob) k)).order_id ob.orders }

remove_at-From :
    (s : Side) (ob : Orderbook) (k : ℕ)
    → From s ob
    → k < depth s ob
    → From s (remove_at s (some k) (off_map s ob k))
unfolding remove_at
remove_at-From buy ob k sound inside = rw (lt→ltb k (length ob.bids) inside) (
    removed-Sides buy (heap_of buy ob) _ k ob.asks ob.next ob.orders sound inside
      (remove-Removed buy (heap_of buy ob) k sound.ordered inside))
remove_at-From sell ob k sound inside = rw (lt→ltb k (length ob.asks) inside) (
    removed-Sides sell (heap_of sell ob) _ k ob.bids ob.next ob.orders sound inside
      (remove-Removed sell (heap_of sell ob) k sound.ordered inside))

-- The book to which `rest` adds the order on its side.
abbrev pub on_map : Orderbook → Order → Orderbook
on_map ob o = record ob {
  mem = update ob.mem ob.next o;
  next = suc ob.next;
  orders = insert o.order_id ob.next ob.orders;
}

rest-From :
    (s : Side) (ob : Orderbook) (o : Order)
    → From s ob
    → o.side ≡ s
    → o.order_type ≡ limit
    → lookup o.order_id ob.orders ≡ none
    → From s (set_heap s (Heap.push s (heap_of s (on_map ob o)) ob.next) (on_map ob o))
rest-From buy ob o sound side type new =
    pushed-Sides buy (heap_of buy ob) ob.asks ob.next ob.orders sound o side type new
rest-From sell ob o sound side type new =
    pushed-Sides sell (heap_of sell ob) ob.bids ob.next ob.orders sound o side type new

pub lowered_root :
    (s : Side) (m : Matching) → ptr_at (heap_of s (lower_best m)) 0 ≡ ptr_at (heap_of s m.book) 0
unfolding lower_best
lowered_root buy m = refl
lowered_root sell m = refl

lowered_id : (m : Matching) (p : ℕ) → ((lower_best m).mem p).order_id ≡ (m.book.mem p).order_id
unfolding lower_best
lowered_id m p = ground arith

pub book_after-IsSound :
    (m : Matching)
    → IsSound m.book
    → 0 < depth (opposite m.order.side) m.book
    → IsSound (book_after m)
unfolding book_after
book_after-IsSound m sound some_left =
    let s = opposite m.order.side in
    let lowered = From-IsSound s _ (lower_best-IsSound m sound) in
    let left : 0 < depth s (lower_best m) = omega (arith, depth-lower_best s m) in
    let id : ((lower_best m).mem (ptr_at (heap_of s (lower_best m)) 0)).order_id
        ≡ (best m).order_id =
      lowered_id m _ ∙ ap (λ p. (m.book.mem p).order_id) (lowered_root s m) in
    elim (Bool-cases ((best m).remaining - fill_qty m == 0)) [
      | inl filled ↦ rw filled (
          IsSound-From s _ (
            subst (λ x. From s (drop_best s x (lower_best m))) id
              (drop_best-From s (lower_best m) lowered left)))
      | inr partly ↦ rw partly (IsSound-From s _ (fix_best-From s (lower_best m) lowered left))
    ]

match_loop-IsSound : (fuel : ℕ) (m : Matching) → IsSound m.book → IsSound (match_loop fuel m).book
unfolding match_loop fill_best
match_loop-IsSound zero m sound = sound
match_loop-IsSound (suc fuel) m sound = elim (Bool-cases (can_fill m)) [
  | inl go ↦ rw go (
      match_loop-IsSound fuel (fill_best m)
        (book_after-IsSound m sound (unfold can_fill in ground arith)))
  | inr stop ↦ rw stop sound
]

pub match-IsSound :
    (ob : Orderbook) (order : Order) (clock : Clock)
    → IsSound ob
    → IsSound (match ob order clock).book
unfolding match
match-IsSound ob order clock sound =
    match_loop-IsSound (suc (rounds (start ob order clock))) (start ob order clock) sound

pub rest-IsSound :
    (ob : Orderbook) (o : Order)
    → IsSound ob
    → o.order_type ≡ limit
    → lookup o.order_id ob.orders ≡ none
    → IsSound (rest ob o)
unfolding rest
rest-IsSound ob o sound type new =
    IsSound-From o.side _ (rest-From o.side ob o (From-IsSound o.side ob sound) refl type new)

-- `remove` finds the order at place `k` by the side and the index that it bears.
remove_found :
    (s : Side) (ob : Orderbook) (k : ℕ) (p : ℕ)
    → From s ob
    → k < depth s ob
    → ptr_at (heap_of s ob) k ≡ p
    → IsSound (
        remove_at
          (ob.mem p).side
          (ob.mem p).index
          (record ob { orders = delete (ob.mem p).order_id ob.orders }))
remove_found s ob k p sound inside at =
    subst
      (λ x. IsSound (
        remove_at (ob.mem x).side (ob.mem x).index
          (record ob { orders = delete (ob.mem x).order_id ob.orders })))
      at
      (subst (λ x. IsSound (remove_at x (ob.mem (ptr_at (heap_of s ob) k)).index (off_map s ob k)))
        (sym (sound.resting k inside).side)
        (subst (λ x. IsSound (remove_at s x (off_map s ob k)))
          (sym (sound.ordered.indexed k inside))
          (IsSound-From s _ (remove_at-From s ob k sound inside))))

remove_on_map :
    (ob : Orderbook) (id : String) (p : ℕ)
    → IsSound ob
    → lookup id ob.orders ≡ some p
    → IsSound
        (remove_at (ob.mem p).side (ob.mem p).index (record ob { orders = delete id ob.orders }))
remove_on_map ob id p sound e =
    let (same, at) = sound.map id p e in
    subst
      (λ x.
        IsSound
          (remove_at (ob.mem p).side (ob.mem p).index (record ob { orders = delete x ob.orders })))
      same
      (elim at [
        | inl (k, q, at_k) ↦ remove_found buy ob k p sound q at_k
        | inr (k, q, at_k) ↦ remove_found sell ob k p (From-IsSound sell ob sound) q at_k
      ])

pub remove-IsSound : (ob : Orderbook) (id : String) → IsSound ob → IsSound (remove ob id)
unfolding remove
remove-IsSound ob id sound = elim (Option-cases (lookup id ob.orders)) [
  | inl e ↦ rw (e, remove) sound
  | inr (p, e) ↦ rw (e, remove) (remove_on_map ob id p sound e)
]

remove_all-IsSound : (ob : Orderbook) (ids : List String) → IsSound ob → IsSound (remove_all ob ids)
unfolding remove_all
remove_all-IsSound ob [] sound = sound
remove_all-IsSound ob (id ∷ ids) sound =
    remove_all-IsSound (remove ob id) ids (remove-IsSound ob id sound)

pub cancel_session-IsSound :
    (ob : Orderbook) (session_id : String) → IsSound ob → IsSound (cancel_session ob session_id)
unfolding cancel_session
cancel_session-IsSound ob session_id sound =
    remove_all-IsSound ob (session_orders ob.mem session_id ob.orders) sound

pub new_orderbook-IsSound : (mem : ℕ → Order) → IsSound (new_orderbook mem)
unfolding new_orderbook lookup
new_orderbook-IsSound mem = grind arith
