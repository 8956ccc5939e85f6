-- ===== src/Stub/Book/Loop.antt =====
-- What one fill and the loop of `match` do to the incoming order and its fills.
use iicpc_sh.Prelude.{
  ℕ, zero, suc, ◌+◌, ◌-◌, ◌≡◌, ◌≤◌, ◌<◌, [], refl, arith, length, ap, Bool-cases, inl, inr, true,
  false, String, All, All-append, sum_of, sum_of-append, ◌⊎◌, ℤ,
}
use iicpc_sh.Stub.Types.{Order, Side, buy, sell, FillMessage}
use iicpc_sh.Stub.Heap.Size.{size-pop, size-fix}
use iicpc_sh.Stub.Clock.{Clock}
use iicpc_sh.Stub.Book.{
  Orderbook, Matching, opposite, side_of, beyond, heap_of, best, can_fill, fill_best, match_loop,
  rounds, match, lower_best, drop_best, fix_best, book_after,
}

-- The number of orders on one side.
abbrev pub depth : Side → Orderbook → ℕ
depth s ob = length (side_of s ob)

pub depth-lower_best : (s : Side) (m : Matching) → depth s (lower_best m) ≡ depth s m.book
unfolding lower_best
depth-lower_best buy m = refl
depth-lower_best sell m = refl

depth-drop_best :
    (s : Side) (id : String) (ob : Orderbook) → depth s (drop_best s id ob) ≡ depth s ob - 1
unfolding drop_best
depth-drop_best buy id ob = size-pop buy (heap_of buy ob)
depth-drop_best sell id ob = size-pop sell (heap_of sell ob)

depth-fix_best : (s : Side) (ob : Orderbook) → depth s (fix_best s ob) ≡ depth s ob
unfolding fix_best
depth-fix_best buy ob = size-fix buy (heap_of buy ob) 0
depth-fix_best sell ob = size-fix sell (heap_of sell ob) 0

-- A fill lowers what the order still wants, or takes an order out of the book.
pub rounds-fill_best : (m : Matching) → can_fill m ≡ true → rounds (fill_best m) < rounds m
unfolding fill_best book_after can_fill
rounds-fill_best m h =
    let s = opposite m.order.side in
    ground (
      arith,
      depth-lower_best s m,
      depth-fix_best s (lower_best m),
      depth-drop_best s (best m).order_id (lower_best m),
    )

match_loop_done : (fuel : ℕ) (m : Matching) → rounds m < fuel → can_fill (match_loop fuel m) ≡ false
unfolding match_loop
match_loop_done zero m h = absurd (omega arith)
match_loop_done (suc fuel) m h =
    ground (arith, match_loop_done fuel (fill_best m), rounds-fill_best m)

abbrev pub start : Orderbook → Order → Clock → Matching
start ob order clock = record { book = ob; order = order; fills = []; clock = clock }

-- No further fill is due.
abbrev pub IsDone : Matching → Type 0
IsDone m =
    (m.order.remaining ≡ 0)
    ⊎ (depth (opposite m.order.side) m.book ≡ 0)
    ⊎ (beyond m.order (best m).price ≡ true)

IsDone-can_fill : (m : Matching) → can_fill m ≡ false → IsDone m
unfolding can_fill
IsDone-can_fill m h = ground arith

-- `match` ends, on every book: the order is filled, or the other side is empty, or the order is a
-- limit order whose price does not reach the best price.
pub match-IsDone : (ob : Orderbook) (order : Order) (clock : Clock) → IsDone (match ob order clock)
unfolding match
match-IsDone ob order clock =
    let m = start ob order clock in
    IsDone-can_fill _ (match_loop_done (suc (rounds m)) m (omega arith))

-- What stays as it was in the incoming order.
abbrev pub SameOrder : Order → Order → Type 0
SameOrder o o' = record o { remaining = 0 } ≡ record o' { remaining = 0 }

-- A fill of the order, at a price within its limit.
pub record IsFillOf (order : Order) (f : FillMessage) : Type 0 where
  pub same_id : f.order_id ≡ order.order_id
  pub within : beyond order f.fill_price ≡ false
  pub bounded : f.filled_qty + f.remaining ≤ order.remaining

pub record LoopInv (order : Order) (m : Matching) : Type 0 where
  pub same : SameOrder m.order order
  pub filled : sum_of (λ f. f.filled_qty) m.fills + m.order.remaining ≡ order.remaining
  pub each : All (IsFillOf order) m.fills

module _ (order : Order) (m : Matching) (go : can_fill m ≡ true) (inv : LoopInv order m) where
  fill_best-same : SameOrder (fill_best m).order order
  unfolding fill_best
  fill_best-same = inv.same

  -- The price of the fill is the one that the `break` let pass.
  beyond_same : (p : ℤ) → beyond m.order p ≡ beyond order p
  unfolding beyond
  beyond_same p = ap (λ (o : Order). beyond o p) inv.same

  fill_best-each : All (IsFillOf order) (fill_best m).fills
  unfolding fill_best can_fill
  fill_best-each = All-append (IsFillOf order) m.fills _ inv.each (
    record {
      same_id = ap (λ (o : Order). o.order_id) inv.same;
      within = ground (arith, beyond_same (best m).price);
      bounded = omega (arith, inv.filled);
    },
    tt,
  )

  fill_best-LoopInv : LoopInv order (fill_best m)
  unfolding fill_best sum_of
  fill_best-LoopInv = record {
    same = fill_best-same;
    filled =
        omega (arith, inv.filled, sum_of-append {0} (λ (f : FillMessage). f.filled_qty) m.fills);
    each = fill_best-each;
  }

match_loop-LoopInv :
    (fuel : ℕ) (order : Order) (m : Matching) → LoopInv order m → LoopInv order (match_loop fuel m)
unfolding match_loop
match_loop-LoopInv zero order m inv = inv
match_loop-LoopInv (suc fuel) order m inv = elim (Bool-cases (can_fill m)) [
  | inl go ↦ rw go (match_loop-LoopInv fuel order (fill_best m) (fill_best-LoopInv order m go inv))
  | inr stop ↦ rw stop inv
]

pub match-LoopInv :
    (ob : Orderbook) (order : Order) (clock : Clock) → LoopInv order (match ob order clock)
unfolding match sum_of
match-LoopInv ob order clock =
    match_loop-LoopInv (suc (rounds (start ob order clock))) order (start ob order clock)
      (record { same = refl; filled = omega arith; each = tt })
