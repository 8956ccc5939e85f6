-- ===== src/Stub/Book/Live.antt =====
-- No order rests with nothing left of it.
use iicpc_sh.Prelude.{
  ℕ, zero, suc, ◌-◌, ◌≡◌, ◌≢◌, ◌<◌, ◌≤◌, arith, sym, ◌∙◌, inl, inr, ap, String, if◌then◌else◌,
  Bool-cases, subst, ◌==◌, leb, leb→le,
}
use iicpc_sh.Stub.Types.{Side, buy, sell, Order}
use iicpc_sh.Stub.Clock.{Clock}
use iicpc_sh.Stub.Heap.{Heap, ptr_at, update}
use iicpc_sh.Stub.Heap
use iicpc_sh.Stub.Heap.Laws.{pop-Removed, fix-root}
use iicpc_sh.Stub.Book.{
  Orderbook, Matching, opposite, heap_of, best, best_ptr, can_fill, fill_best, match_loop, rounds,
  match, fill_qty, lower_best, drop_best, fix_best, book_after,
}
use iicpc_sh.Stub.Book.Loop.{depth, depth-lower_best, start}
use iicpc_sh.Stub.Book.Sound.{From, IsSound, From-IsSound}
use iicpc_sh.Stub.Book.Changes.{apart}
use iicpc_sh.Stub.Book.Steps.{lower_best-IsSound, book_after-IsSound, lowered_root}
use iicpc_sh.Stub.Book.Shrinks.{resting_at, book_after-Shrinks, set_heap-mem}

abbrev pub IsLive : Orderbook → Type 0
IsLive ob = (s : Side) (k : ℕ) → k < depth s ob → 0 < (ob.mem (resting_at s ob k)).remaining

-- The dropped order rests on neither side.
drop_best-ne :
    (s t : Side) (id : String) (ob : Orderbook)
    → From s ob
    → 0 < depth s ob
    → (k : ℕ) → k < depth t (drop_best s id ob)
    → resting_at t (drop_best s id ob) k ≢ resting_at s ob 0
unfolding drop_best
drop_best-ne buy buy id ob sound left k p =
    ((pop-Removed buy (heap_of buy ob) sound.ordered left).from k p).3
drop_best-ne buy sell id ob sound left k p =
    λ e. apart buy (heap_of buy ob) ob.asks ob.next ob.orders sound 0 k left p (sym e)
drop_best-ne sell buy id ob sound left k p =
    λ e. apart sell (heap_of sell ob) ob.bids ob.next ob.orders sound 0 k left p (sym e)
drop_best-ne sell sell id ob sound left k p =
    ((pop-Removed sell (heap_of sell ob) sound.ordered left).from k p).3

drop_best-remaining :
    (s : Side) (id : String) (ob : Orderbook)
    → From s ob
    → 0 < depth s ob
    → (p : ℕ) → ((drop_best s id ob).mem p).remaining ≡ (ob.mem p).remaining
unfolding drop_best
drop_best-remaining s id ob sound left p =
    rw (set_heap-mem s _ (Heap.pop s (heap_of s ob)))
      (ap (λ (o : Order). o.remaining) ((pop-Removed s (heap_of s ob) sound.ordered left).kept p))

fix_best-remaining :
    (s : Side) (ob : Orderbook)
    → From s ob
    → 0 < depth s ob
    → (p : ℕ) → ((fix_best s ob).mem p).remaining ≡ (ob.mem p).remaining
unfolding fix_best
fix_best-remaining s ob sound left p =
    rw (set_heap-mem s ob (Heap.fix s (heap_of s ob) 0))
      (ap (λ (o : Order). o.remaining) ((fix-root s (heap_of s ob) sound.ordered left).0.kept p))

lower_best-remaining :
    (m : Matching) (p : ℕ)
    → ((lower_best m).mem p).remaining
      ≡ (if best_ptr m == p then (best m).remaining - fill_qty m else (m.book.mem p).remaining)
unfolding lower_best
lower_best-remaining m p = ground arith

module _ (m : Matching) (sound : IsSound m.book)
    (left : 0 < depth (opposite m.order.side) m.book) where
  abbrev s : Side
  s = opposite m.order.side

  lowered : From s (lower_best m)
  lowered = From-IsSound s _ (lower_best-IsSound m sound)

  left' : 0 < depth s (lower_best m)
  left' = omega (arith, depth-lower_best s m)

  -- What is left of each order after a fill.
  pub book_after-remaining :
      (p : ℕ)
      → ((book_after m).mem p).remaining
        ≡ (if best_ptr m == p then (best m).remaining - fill_qty m else (m.book.mem p).remaining)
  unfolding book_after
  book_after-remaining p = ground (
    arith,
    drop_best-remaining s (best m).order_id (lower_best m) lowered left' p,
    fix_best-remaining s (lower_best m) lowered left' p,
    lower_best-remaining m p,
  )

  dropped :
      (best m).remaining ≤ fill_qty m → book_after m ≡ drop_best s (best m).order_id (lower_best m)
  unfolding book_after
  dropped filled = ground arith

  -- An order that is filled rests no longer.
  book_after-ne :
      (best m).remaining ≤ fill_qty m
      → (t : Side) (k : ℕ) → k < depth t (book_after m)
      → resting_at t (book_after m) k ≢ best_ptr m
  book_after-ne filled t =
      subst (λ b. (k : ℕ) → k < depth t b → resting_at t b k ≢ best_ptr m) (sym (dropped filled))
        (λ k p e.
          drop_best-ne s t (best m).order_id (lower_best m) lowered left' k p
            (e ∙ sym (lowered_root s m)))

  book_after-IsLive : IsLive m.book → IsLive (book_after m)
  book_after-IsLive live t k p =
      let (k', q, e) = (book_after-Shrinks m sound left).from t k p in
      let was = subst (λ x. 0 < (m.book.mem x).remaining) (sym e) (live t k' q) in
      elim (Bool-cases (leb (best m).remaining (fill_qty m))) [
        | inl filled ↦
            let ne = book_after-ne (leb→le _ _ filled) t k p in
            ground (arith, book_after-remaining (resting_at t (book_after m) k))
        | inr partly ↦ ground (arith, book_after-remaining (resting_at t (book_after m) k))
      ]

match_loop-IsLive :
    (fuel : ℕ) (m : Matching) → IsSound m.book → IsLive m.book → IsLive (match_loop fuel m).book
unfolding match_loop fill_best
match_loop-IsLive zero m sound live = live
match_loop-IsLive (suc fuel) m sound live = elim (Bool-cases (can_fill m)) [
  | inl go ↦
      let left : 0 < depth (opposite m.order.side) m.book = unfold can_fill in ground arith in
      rw go (
        match_loop-IsLive fuel (fill_best m) (book_after-IsSound m sound left)
          (book_after-IsLive m sound left live))
  | inr stop ↦ rw stop live
]

pub match-IsLive :
    (ob : Orderbook) (order : Order) (clock : Clock)
    → IsSound ob
    → IsLive ob
    → IsLive (match ob order clock).book
unfolding match
match-IsLive ob order clock sound live =
    let m = start ob order clock in match_loop-IsLive (suc (rounds m)) m sound live
