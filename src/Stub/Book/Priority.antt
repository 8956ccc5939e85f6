-- ===== src/Stub/Book/Priority.antt =====
-- Price-time priority of matching.
use iicpc_sh.Prelude.{
  ℕ, zero, suc, ℤ, ◌-◌, ◌≡◌, ◌<◌, arith, inl, inr, List, [], ◌∷◌, ◌++◌, if◌then◌else◌, Bool-cases,
  true, false, ◌==◌, All, All-append, All-map,
}
use iicpc_sh.Stub.Types.{Side, buy, sell, Order, FillMessage}
use iicpc_sh.Stub.Clock.{Clock}
use iicpc_sh.Stub.Heap.{less}
use iicpc_sh.Stub.Heap.Priority.{NotAfter}
use iicpc_sh.Stub.Heap.Moves.{key}
use iicpc_sh.Stub.Heap.Laws.{root_first}
use iicpc_sh.Stub.Book.{
  Orderbook, Matching, opposite, heap_of, match, match_loop, rounds, can_fill, fill_best, short_of,
  best, fill_qty,
}
use iicpc_sh.Stub.Book.Loop.{depth, start}
use iicpc_sh.Stub.Book.Sound.{IsSound, From-IsSound}
use iicpc_sh.Stub.Book.Steps.{book_after-IsSound}
use iicpc_sh.Stub.Book.Shrinks.{resting_at, book_after-Shrinks}
use iicpc_sh.Stub.Book.Live.{book_after-remaining}
use iicpc_sh.Stub.Book.Valid.{price_at, Shrinks-price}

-- The first price is not worse for the side that takes than the second.
abbrev pub NotWorse : Side → ℤ → ℤ → Type 0
NotWorse taker p q = short_of taker q p ≡ false

NotAfter-NotWorse :
    (taker : Side) (a b : Order) → NotAfter (opposite taker) a b → NotWorse taker a.price b.price
unfolding less
NotAfter-NotWorse buy a b h = ground arith
NotAfter-NotWorse sell a b h = ground arith

can_fill-left : (m : Matching) → can_fill m ≡ true → 0 < depth (opposite m.order.side) m.book
unfolding can_fill
can_fill-left m go = ground arith

-- A fill takes from the order that no other on its side precedes, in price or at the same price in
-- time, and from no other order of the book.
fill_best-priority :
    (m : Matching)
    → IsSound m.book
    → can_fill m ≡ true
    → ((k : ℕ)
        → k < depth (opposite m.order.side) m.book
        → NotAfter
            (opposite m.order.side)
            (key (heap_of (opposite m.order.side) m.book) 0)
            (key (heap_of (opposite m.order.side) m.book) k))
      × ((p : ℕ)
          → ((fill_best m).book.mem p).remaining ≡ (
              if resting_at (opposite m.order.side) m.book 0 == p
              then (best m).remaining - fill_qty m
              else (m.book.mem p).remaining))
unfolding fill_best
fill_best-priority m sound go =
    let s = opposite m.order.side in
    (
      λ k p. root_first s (heap_of s m.book) k (From-IsSound s m.book sound).ordered p,
      book_after-remaining m sound (can_fill-left m go),
    )

abbrev pub AreSorted : Side → List FillMessage → Type 0
AreSorted taker [] = Unit {0}
AreSorted taker (f ∷ fs) =
    All (λ (g : FillMessage). NotWorse taker f.fill_price g.fill_price) fs × AreSorted taker fs

AreSorted-append :
    (taker : Side) (fs : List FillMessage) (g : FillMessage)
    → AreSorted taker fs
    → All (λ (f : FillMessage). NotWorse taker f.fill_price g.fill_price) fs
    → AreSorted taker (fs ++ (g ∷ []))
AreSorted-append taker [] g h k = (tt, tt)
AreSorted-append taker (f ∷ fs) g h k =
    (All-append _ fs (g ∷ []) h.0 (k.0, tt), AreSorted-append taker fs g h.1 k.1)

-- The fills so far are at prices that are not worse than those that rest.
record TakesBest (m : Matching) : Type 0 where
  sorted : AreSorted m.order.side m.fills
  rest_worse :
      All
        (λ (f : FillMessage).
          (k : ℕ)
          → k < depth (opposite m.order.side) m.book
          → NotWorse m.order.side f.fill_price (price_at (opposite m.order.side) m.book k))
        m.fills

fill_best-TakesBest :
    (m : Matching) → IsSound m.book → can_fill m ≡ true → TakesBest m → TakesBest (fill_best m)
unfolding fill_best
fill_best-TakesBest m sound go inv =
    let taker = m.order.side in
    let s = opposite taker in
    let left = can_fill-left m go in
    let shrinks = book_after-Shrinks m sound left in
    let first = λ (k : ℕ) (p : k < depth s m.book).
      NotAfter-NotWorse taker (key (heap_of s m.book) 0) (key (heap_of s m.book) k)
        (root_first s (heap_of s m.book) k (From-IsSound s m.book sound).ordered p) in
    record {
      sorted =
          AreSorted-append taker m.fills _ inv.sorted
            (All-map _ _ m.fills (λ f h. h 0 left) inv.rest_worse);
      rest_worse =
          All-append _ m.fills _
            (All-map _ _ m.fills
              (λ f h k p. let (k', q, e) = Shrinks-price _ _ shrinks s k p in rw e (h k' q))
              inv.rest_worse)
            (λ k p. let (k', q, e) = Shrinks-price _ _ shrinks s k p in rw e (first k' q), tt);
    }

match_loop-TakesBest :
    (fuel : ℕ) (m : Matching) → IsSound m.book → TakesBest m → TakesBest (match_loop fuel m)
unfolding match_loop
match_loop-TakesBest zero m sound inv = inv
match_loop-TakesBest (suc fuel) m sound inv = elim (Bool-cases (can_fill m)) [
  | inl go ↦ rw go (
      match_loop-TakesBest fuel (fill_best m)
        (unfold fill_best in book_after-IsSound m sound (can_fill-left m go))
        (fill_best-TakesBest m sound go inv))
  | inr stop ↦ rw stop inv
]

-- The fills of an order go from the best price to the worst, and no order that rests on the other
-- side afterwards has a better price than a fill.
pub match-best_first :
    (ob : Orderbook) (order : Order) (clock : Clock)
    → IsSound ob
    → let m = match ob order clock in
      AreSorted m.order.side m.fills
      × All
          (λ (f : FillMessage).
            (k : ℕ)
            → k < depth (opposite m.order.side) m.book
            → NotWorse m.order.side f.fill_price (price_at (opposite m.order.side) m.book k))
          m.fills
unfolding match
match-best_first ob order clock sound =
    let m = start ob order clock in
    let best_first =
      match_loop-TakesBest (suc (rounds m)) m sound (record { sorted = tt; rest_worse = tt }) in
    (best_first.sorted, best_first.rest_worse)
