-- ===== src/Stub/Book/Clear.antt =====
-- After matching, what is left of a limit order may rest: its price reaches no order of the other
-- side, and its id is still not on the map.
use iicpc_sh.Prelude.{
  ℕ, zero, suc, ℤ, ◌-◌, ◌≡◌, ◌<◌, arith, inl, inr, ◌⊎◌, none, String, Bool-cases, true, ◌==◌,
}
use iicpc_sh.Prelude.Assoc.{lookup, delete, lookup-delete}
use iicpc_sh.Stub.Types.{Side, buy, sell, Order, limit}
use iicpc_sh.Stub.Clock.{Clock}
use iicpc_sh.Stub.Heap.{less}
use iicpc_sh.Stub.Heap.Priority.{NotAfter}
use iicpc_sh.Stub.Heap.Moves.{key}
use iicpc_sh.Stub.Heap.Laws.{root_first}
use iicpc_sh.Stub.Book.{
  Orderbook, Matching, opposite, heap_of, match, match_loop, rounds, can_fill, fill_best,
  book_after, lower_best, drop_best, fix_best, beyond, short_of, best, fill_qty,
}
use iicpc_sh.Stub.Book.Loop.{match-IsDone, start}
use iicpc_sh.Stub.Book.Shrinks.{set_heap-orders}
use iicpc_sh.Stub.Book.Sound.{From-IsSound}
use iicpc_sh.Stub.Book.Steps.{match-IsSound}
use iicpc_sh.Stub.Book.Valid.{IsValid, IsClear}

-- The best price comes first: a limit that does not reach it reaches no price of its side.
short_of_all :
    (s : Side) (a b : Order) (p : ℤ)
    → NotAfter (opposite s) a b
    → short_of s p a.price ≡ true
    → short_of s p b.price ≡ true
unfolding less
short_of_all buy a b p h k = ground arith
short_of_all sell a b p h k = ground arith

beyond-short : (o : Order) (p : ℤ) → beyond o p ≡ true → short_of o.side o.price p ≡ true
unfolding beyond
beyond-short o p h = ground arith

-- After `match` an order that still wants more is clear of the other side.
pub match-IsClear :
    (ob : Orderbook) (order : Order) (clock : Clock)
    → IsValid ob
    → order.order_type ≡ limit
    → let m = match ob order clock in 0 < m.order.remaining → IsClear m.book m.order
match-IsClear ob order clock v type wants k p = elim (match-IsDone ob order clock) [
  | inl filled ↦ absurd (omega arith)
  | inr (inl empty) ↦ absurd (omega arith)
  | inr (inr past) ↦
      let m = match ob order clock in
      let s = opposite m.order.side in
      let ord = (From-IsSound s m.book (match-IsSound ob order clock v.sound)).ordered in
      short_of_all m.order.side (key (heap_of s m.book) 0) (key (heap_of s m.book) k) m.order.price
        (root_first s (heap_of s m.book) k ord p) (beyond-short m.order (best m).price past)
]

-- A fill takes at most the filled order off the map.
pub book_after-orders :
    (m : Matching)
    → ((book_after m).orders ≡ m.book.orders)
      ⊎ ((book_after m).orders ≡ delete (best m).order_id m.book.orders)
unfolding book_after drop_best fix_best lower_best
book_after-orders m = elim (Bool-cases ((best m).remaining - fill_qty m == 0)) [
  | inl filled ↦ inr (rw filled (set_heap-orders (opposite m.order.side) _ _))
  | inr partly ↦ inl (rw partly (set_heap-orders (opposite m.order.side) _ _))
]

book_after-lookup :
    (m : Matching) (id : String)
    → lookup id m.book.orders ≡ none
    → lookup id (book_after m).orders ≡ none
book_after-lookup m id new = elim (book_after-orders m) [
  | inl same ↦ rw same new
  | inr less ↦ rw less (ground (arith, lookup-delete (best m).order_id id m.book.orders))
]

match_loop-lookup :
    (fuel : ℕ) (m : Matching) (id : String)
    → lookup id m.book.orders ≡ none
    → lookup id (match_loop fuel m).book.orders ≡ none
unfolding match_loop fill_best
match_loop-lookup zero m id new = new
match_loop-lookup (suc fuel) m id new = elim (Bool-cases (can_fill m)) [
  | inl go ↦ rw go (match_loop-lookup fuel (fill_best m) id (book_after-lookup m id new))
  | inr stop ↦ rw stop new
]

pub match-lookup :
    (ob : Orderbook) (order : Order) (clock : Clock) (id : String)
    → lookup id ob.orders ≡ none
    → lookup id (match ob order clock).book.orders ≡ none
unfolding match
match-lookup ob order clock id new =
    let m = start ob order clock in match_loop-lookup (suc (rounds m)) m id new
