-- ===== src/Stub/Exchange/Fills.antt =====
-- A fill of the book is a trade of the exchange, with an order that no other precedes.
use iicpc_sh.Prelude.{
  ℕ, ◌-◌, ◌≡◌, ◌<◌, refl, arith, ◌∙◌, inl, inr, some, ap, String, Bool-cases, Option-cases, str_eq,
  str_eq_iff, ◌==◌, fun_ext, false,
}
use iicpc_sh.Prelude.Assoc.{lookup, delete, lookup-delete}
use iicpc_sh.Stub.Types.{Side}
use iicpc_sh.Stub.Heap
use iicpc_sh.Stub.Heap.{Heap, update}
use iicpc_sh.Stub.Heap.Laws.{pop-Removed, fix-root}
use iicpc_sh.Stub.Heap.Priority.{erase}
use iicpc_sh.Stub.Book.{
  Orderbook, Matching, opposite, heap_of, best, best_ptr, fill_qty, lower_best, drop_best, fix_best,
  book_after,
}
use iicpc_sh.Stub.Book.Loop.{depth, depth-lower_best}
use iicpc_sh.Stub.Book.Sound.{IsSound, From, From-IsSound}
use iicpc_sh.Stub.Book.Shrinks.{set_heap-mem, set_heap-orders}
use iicpc_sh.Stub.Book.Steps.{lower_best-IsSound}
use iicpc_sh.Stub.Exchange.{view, order_at, put, take_out, lower, traded}
use iicpc_sh.Stub.Exchange.View.{view-delete, view-same}

drop_best-view :
    (s : Side) (id : String) (ob : Orderbook)
    → From s ob
    → 0 < depth s ob
    → view (drop_best s id ob) ≡ take_out id (view ob)
unfolding drop_best
drop_best-view s id ob sound left =
    let ob' = record ob { orders = delete id ob.orders } in
    view-delete ob _
      (λ p.
        rw (set_heap-mem s ob' (Heap.pop s (heap_of s ob)))
          ((pop-Removed s (heap_of s ob) sound.ordered left).kept p))
      id
      (λ j. rw (set_heap-orders s (Heap.pop s (heap_of s ob)) ob') (lookup-delete id j ob.orders))

fix_best-view :
    (s : Side) (ob : Orderbook) → From s ob → 0 < depth s ob → view (fix_best s ob) ≡ view ob
unfolding fix_best
fix_best-view s ob sound left =
    view-same ob _
      (λ p.
        rw (set_heap-mem s ob (Heap.fix s (heap_of s ob) 0))
          ((fix-root s (heap_of s ob) sound.ordered left).0.kept p))
      (λ j. rw (set_heap-orders s (Heap.fix s (heap_of s ob) 0) ob) refl)

module _ (m : Matching) (sound : IsSound m.book)
    (left : 0 < depth (opposite m.order.side) m.book) where
  abbrev s : Side
  s = opposite m.order.side

  best_listed : lookup (best m).order_id m.book.orders ≡ some (best_ptr m)
  best_listed = ((From-IsSound s m.book sound).resting 0 left).listed

  lower_best-orders : (lower_best m).orders ≡ m.book.orders
  unfolding lower_best
  lower_best-orders = refl

  -- The map leads to the best order by its own id and by no other.
  best_id :
      (j : String) (p : ℕ)
      → lookup j m.book.orders ≡ some p
      → str_eq (best m).order_id j ≡ (best_ptr m == p)
  best_id j p found = elim (Bool-cases (best_ptr m == p)) [
    | inl mine ↦
        let at : best_ptr m ≡ p = ground arith in
        let id : (best m).order_id ≡ j =
          ap (λ q. (m.book.mem q).order_id) at ∙ (sound.map j p found).0 in
        rw mine (ground (arith, str_eq_iff (best m).order_id j))
    | inr other ↦ rw other (ground (arith, str_eq_iff (best m).order_id j, best_listed))
  ]

  lowered_at :
      (j : String) (p : ℕ)
      → lookup j m.book.orders ≡ some p
      → order_at (lower_best m).mem (some p)
        ≡ put (lower (fill_qty m) (erase (best m))) (view m.book) j
  unfolding lower_best view
  lowered_at j p found = elim (Bool-cases (best_ptr m == p)) [
    | inl mine ↦ rw (best_id j p found) (rw mine refl)
    | inr other ↦ rw (best_id j p found) (rw other (rw found refl))
  ]

  lowered-view : view (lower_best m) ≡ put (lower (fill_qty m) (erase (best m))) (view m.book)
  unfolding view lower_best
  lowered-view = fun_ext (λ j. elim (Option-cases (lookup j m.book.orders)) [
    | inl missing ↦
        let other : str_eq (best m).order_id j ≡ false =
          ground (arith, str_eq_iff (best m).order_id j, best_listed) in
        rw other (rw missing refl)
    | inr (p, found) ↦ rw (ap (order_at (lower_best m).mem) found) (lowered_at j p found)
  ])

  lowered : From s (lower_best m)
  lowered = From-IsSound s _ (lower_best-IsSound m sound)

  left' : 0 < depth s (lower_best m)
  left' = omega (arith, depth-lower_best s m)

  -- A fill trades with the order at the root.
  pub book_after-view : view (book_after m) ≡ traded (erase (best m)) (fill_qty m) (view m.book)
  unfolding book_after
  book_after-view = elim (Bool-cases ((best m).remaining - fill_qty m == 0)) [
    | inl filled ↦ rw filled (
        drop_best-view s (best m).order_id (lower_best m) lowered left'
        ∙ ap (take_out (best m).order_id) lowered-view
        ∙ fun_ext (λ j. elim (Bool-cases (str_eq (best m).order_id j)) [
          | inl mine ↦ rw mine refl
          | inr other ↦ rw other refl
        ]))
    | inr partly ↦ rw partly (fix_best-view s (lower_best m) lowered left' ∙ lowered-view)
  ]
