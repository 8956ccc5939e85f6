-- ===== src/Stub/Book.antt =====
-- services/stub/main.go: Orderbook, match, rest, remove and cancelSession.
--
-- `mem` holds the orders at their addresses, `bids` and `asks` are the two heaps of addresses,
-- and the map `orders` leads from an order id to an address: all three see one Order. The incoming
-- order of `match` is a value of its own, since no pointer to it is stored before `rest`.
-- The two copies of the loop of `match`, for buys and for sells, are one function of the side.
-- Callers hold the mutex, so each function is one step.
pub mod Loop
pub mod Sound
pub mod Removal
pub mod Changes
pub mod Resting
pub mod Steps
pub mod Shrinks
pub mod Live
pub mod Drops
pub mod Valid
pub mod Clear
pub mod Priority
use Prim.Native.String.{String}
use iicpc_sh.Prelude.{
  ℕ, zero, suc, ℤ, ◌+◌, ◌-◌, Bool, true, false, ◌&&◌, List, [], ◌∷◌, ◌++◌, Option, none, some, ltb,
  ◌==◌, str_eq, if◌then◌else◌, length, get_or, ltb_ℤ, min,
}
use iicpc_sh.Prelude.Assoc.{lookup, insert, delete}
use iicpc_sh.Stub.Types.{Order, Side, buy, sell, OrderType, limit, market, FillMessage}
use iicpc_sh.Stub.Clock.{Clock, now}
use iicpc_sh.Stub.Heap
use iicpc_sh.Stub.Heap.{Heap, update}

pub record Orderbook : Type 0 where
  pub mem : ℕ → Order
  -- the next address that is not in use
  pub next : ℕ
  pub bids : List ℕ
  pub asks : List ℕ
  pub orders : List (String × ℕ)

abbrev pub opposite : Side → Side
opposite buy = sell
opposite sell = buy

abbrev pub side_of : Side → Orderbook → List ℕ
side_of buy ob = ob.bids
side_of sell ob = ob.asks

abbrev pub heap_of : Side → Orderbook → Heap
heap_of s ob = record { mem = ob.mem; arr = side_of s ob }

abbrev pub set_heap : Side → Heap → Orderbook → Orderbook
set_heap buy h ob = record ob { mem = h.mem; bids = h.arr }
set_heap sell h ob = record ob { mem = h.mem; asks = h.arr }

-- NewOrderbook; `heap.Init` does nothing to an empty slice.
unfoldable pub new_orderbook : (ℕ → Order) → Orderbook
new_orderbook mem = record { mem = mem; next = 0; bids = []; asks = []; orders = [] }

abbrev pub is_limit : OrderType → Bool
is_limit limit = true
is_limit market = false

-- A price of an order on this side does not reach the best price.
abbrev pub short_of : Side → ℤ → ℤ → Bool
short_of buy p best_price = ltb_ℤ p best_price
short_of sell p best_price = ltb_ℤ best_price p

-- The `break` of the loop: a limit order whose price does not reach the best price.
unfoldable pub beyond : Order → ℤ → Bool
beyond order best_price = is_limit order.order_type && short_of order.side order.price best_price

pub record Matching : Type 0 where
  pub book : Orderbook
  pub order : Order
  pub fills : List FillMessage
  pub clock : Clock

-- The address of `ob.asks[0]` or `ob.bids[0]`, and the order there.
abbrev pub best_ptr : Matching → ℕ
best_ptr m = get_or (side_of (opposite m.order.side) m.book) 0 0

abbrev pub best : Matching → Order
best m = m.book.mem (best_ptr m)

-- The test of the `for` and its `break`: whether another fill takes place.
unfoldable pub can_fill : Matching → Bool
unfolding beyond
can_fill m =
    ltb 0 m.order.remaining
    && ltb 0 (length (side_of (opposite m.order.side) m.book))
    && (if beyond m.order (best m).price then false else true)

-- The quantity of the next fill: `min64(order.Remaining, best.Remaining)`.
abbrev pub fill_qty : Matching → ℕ
fill_qty m = min m.order.remaining (best m).remaining

-- `best.Remaining -= qty`, seen by the heap and by the map.
unfoldable pub lower_best : Matching → Orderbook
lower_best m = record m.book {
  mem =
      update m.book.mem (best_ptr m)
        (record (best m) { remaining = (best m).remaining - fill_qty m });
}

-- `delete(ob.orders, best.OrderID); heap.Pop(…)`
unfoldable pub drop_best : Side → String → Orderbook → Orderbook
unfolding delete
drop_best s id ob =
    set_heap s (Heap.pop s (heap_of s ob)) (record ob { orders = delete id ob.orders })

-- `heap.Fix(…, 0)`
unfoldable pub fix_best : Side → Orderbook → Orderbook
fix_best s ob = set_heap s (Heap.fix s (heap_of s ob) 0) ob

-- The book after a fill.
unfoldable pub book_after : Matching → Orderbook
unfolding lower_best drop_best fix_best
book_after m =
    let s = opposite m.order.side in
    if (best m).remaining - fill_qty m == 0
    then drop_best s (best m).order_id (lower_best m)
    else fix_best s (lower_best m)

-- The body of the loop after the `break`.
unfoldable pub fill_best : Matching → Matching
unfolding book_after now
fill_best m =
    let remaining = m.order.remaining - fill_qty m in
    let (ts, clock) = now m.clock in
    let filled : FillMessage = record {
      order_id = m.order.order_id;
      filled_qty = fill_qty m;
      fill_price = (best m).price;
      remaining = remaining;
      timestamp = ts;
    } in
    record {
      book = book_after m;
      order = record m.order { remaining = remaining };
      fills = m.fills ++ (filled ∷ []);
      clock = clock;
    }

-- The loop, with fuel for its rounds.
unfoldable pub match_loop : ℕ → Matching → Matching
match_loop zero m = m
match_loop (suc fuel) m = let rest = match_loop fuel (fill_best m) in if can_fill m then rest else m

-- Each round fills the order, or removes an order of the book: so many rounds are enough.
abbrev pub rounds : Matching → ℕ
rounds m = m.order.remaining + length (side_of (opposite m.order.side) m.book)

-- (*Orderbook).match
unfoldable pub match : Orderbook → Order → Clock → Matching
unfolding match_loop
match ob order clock =
    let m : Matching = record { book = ob; order = order; fills = []; clock = clock } in
    match_loop (suc (rounds m)) m

-- (*Orderbook).rest: the order is stored at a new address.
unfoldable pub rest : Orderbook → Order → Orderbook
unfolding insert
rest ob order =
    let p = ob.next in
    let ob' = record ob {
      mem = update ob.mem p order;
      next = suc p;
      orders = insert order.order_id p ob.orders;
    } in
    set_heap order.side (Heap.push order.side (heap_of order.side ob') p) ob'

-- `if order.index >= 0 && order.index < len(heap) { heap.Remove(heap, order.index) }`
unfoldable pub remove_at : Side → Option ℕ → Orderbook → Orderbook
remove_at s none ob = ob
remove_at s (some i) ob =
    if ltb i (length (side_of s ob)) then set_heap s (Heap.remove s (heap_of s ob) i) ob else ob

-- (*Orderbook).remove
unfoldable pub remove : Orderbook → String → Orderbook
unfolding lookup delete remove_at
remove ob order_id = elim (lookup order_id ob.orders) [
  | none ↦ ob
  | some p ↦
      remove_at (ob.mem p).side (ob.mem p).index (record ob { orders = delete order_id ob.orders })
]

-- The first loop of cancelSession: the ids of the orders of the session.
unfoldable pub session_orders : (ℕ → Order) → String → List (String × ℕ) → List String
session_orders mem session_id [] = []
session_orders mem session_id ((k, p) ∷ orders) =
    let found = session_orders mem session_id orders in
    if str_eq (mem p).session_id session_id then (mem p).order_id ∷ found else found

unfoldable pub remove_all : Orderbook → List String → Orderbook
remove_all ob [] = ob
remove_all ob (id ∷ ids) = remove_all (remove ob id) ids

-- (*Orderbook).cancelSession
unfoldable pub cancel_session : Orderbook → String → Orderbook
unfolding session_orders remove_all
cancel_session ob session_id = remove_all ob (session_orders ob.mem session_id ob.orders)
