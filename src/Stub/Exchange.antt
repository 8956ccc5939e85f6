-- ===== src/Stub/Exchange.antt =====
-- An exchange in the abstract, without heaps, addresses or indices: the resting orders by their ids.
-- The order book of services/stub/main.go is read as one by `view`.
pub mod View
pub mod Fills
pub mod Refines
pub mod Changes
pub mod Handling
pub mod Serving
mod Tests
use iicpc_sh.Prelude.{
  ℕ, ℤ, ◌-◌, ◌≡◌, ◌<◌, ◌⊎◌, true, List, [], ◌∷◌, Option, none, some, String, str_eq, ◌==◌,
  if◌then◌else◌, min, leb_ℤ,
}
use iicpc_sh.Prelude.Assoc.{lookup}
use iicpc_sh.Stub.Types.{Order, FillMessage, Side, limit}
use iicpc_sh.Stub.Heap.Priority.{erase}
use iicpc_sh.Stub.Book.{Orderbook, opposite}
use iicpc_sh.Stub.Book.Priority.{NotWorse}

-- The resting orders, by their ids. An order has no place in a heap here.
abbrev pub Orders : Type 0
Orders = String → Option Order

abbrev pub put : Order → Orders → Orders
put o b id = if str_eq o.order_id id then some o else b id

abbrev pub take_out : String → Orders → Orders
take_out gone b id = if str_eq gone id then none else b id

-- The orders of a session leave.
abbrev pub clear_session : String → Orders → Orders
clear_session session b id = elim (b id) [
  | none ↦ none
  | some o ↦ if str_eq o.session_id session then none else some o
]

-- The first order comes before the second or with it: its price is not worse for the taker, and at
-- the same price it was not entered later.
pub record Precedes (taker : Side) (a b : Order) : Type 0 where
  pub price : NotWorse taker a.price b.price
  pub time : a.price ≡ b.price → leb_ℤ a.entered_at b.entered_at ≡ true

-- A limit order takes no price that is worse than its own.
abbrev pub Accepts : Order → ℤ → Type 0
Accepts o price = o.order_type ≡ limit → NotWorse o.side price o.price

-- `best` rests on the other side at a price that `taker` accepts, and none there precedes it.
pub record IsBest (b : Orders) (taker best : Order) : Type 0 where
  pub listed : b best.order_id ≡ some best
  pub side : best.side ≡ opposite taker.side
  pub accepted : Accepts taker best.price
  pub first :
      (id : String) (o : Order)
      → b id ≡ some o
      → o.side ≡ opposite taker.side
      → Precedes taker.side best o

abbrev pub lower : ℕ → Order → Order
lower qty o = record o { remaining = o.remaining - qty }

-- The orders after `qty` of one of them was traded.
abbrev pub traded : Order → ℕ → Orders → Orders
traded best qty b =
    if best.remaining - qty == 0 then take_out best.order_id b else put (lower qty best) b

-- A trade, without its timestamp.
pub record Trade : Type 0 where
  pub order_id : String
  pub qty : ℕ
  pub price : ℤ
  pub left : ℕ

-- Nothing is left to trade, or nobody on the other side has a price that the order accepts.
abbrev pub IsFinished : Orders → Order → Type 0
IsFinished b o =
    (o.remaining ≡ 0)
    ⊎ ((id : String) (o' : Order)
        → b id ≡ some o'
        → o'.side ≡ opposite o.side
        → ¬ Accepts o o'.price)

-- `Matches b o trades b' o'`: the order `o` enters among `b` and trades with the best, as much as
-- both have, until it is finished; `b'` are the orders then, and `o'` is what it has become.
pub data Matches : Orders → Order → List Trade → Orders → Order → Type 0 where
  finished : {b : Orders} {o : Order} → IsFinished b o → Matches b o [] b o
  trades :
      {b b' : Orders} {o o' : Order} {ts : List Trade} (best : Order)
      → 0 < o.remaining
      → IsBest b o best
      → Matches
          (traded best (min o.remaining best.remaining) b)
          (lower (min o.remaining best.remaining) o)
          ts
          b'
          o'
      → Matches b o
          (record {
            order_id = o.order_id;
            qty = min o.remaining best.remaining;
            price = best.price;
            left = o.remaining - min o.remaining best.remaining;
          }
            ∷ ts)
          b'
          o'

abbrev pub order_at : (ℕ → Order) → Option ℕ → Option Order
order_at mem none = none
order_at mem (some p) = some (erase (mem p))

-- A book as an exchange: the orders that the map leads to.
unfoldable pub view : Orderbook → Orders
view ob id = order_at ob.mem (lookup id ob.orders)

abbrev pub trade_of : FillMessage → Trade
trade_of f = record {
  order_id = f.order_id;
  qty = f.filled_qty;
  price = f.fill_price;
  left = f.remaining;
}
