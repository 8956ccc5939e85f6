-- ===== src/Stub/Tests.antt =====
-- The order book and its sessions on concrete inputs.
use iicpc_sh.Prelude.{ℕ, pos, ◌<◌, ◌+◌, refl, arith, String, none, List, [], ◌∷◌}
use iicpc_sh.Stub.Types.{Order, buy, sell, limit, IncomingMessage}
use iicpc_sh.Stub.Clock.{candidate, inc_int64}
use iicpc_sh.Stub.Clock.Race.{
  Race, start, next, idle, read_clock, load, swapped, AreDecreasing, Reach-AreDecreasing,
}
use iicpc_sh.Stub.Heap.{Heap, push, remove}
use iicpc_sh.Stub.Heap.Size.{size}
use iicpc_sh.Stub.Heap.Remove.{IsOrdered, Removed}
use iicpc_sh.Stub.Heap.Laws.{push-Pushed, remove-Removed, Pushed}
use iicpc_sh.Stub.Book.{new_orderbook, match}
use iicpc_sh.Stub.Book.Loop.{IsDone, match-IsDone}
use iicpc_sh.Stub.Book.Valid.{IsValid, new_orderbook-IsValid}
use iicpc_sh.Stub.Book.Priority.{AreSorted, match-best_first}
use iicpc_sh.Stub.Session.{Stub, Event, received, serve, accept_order}
use iicpc_sh.Stub.Snapshot.{snapshot}
use iicpc_sh.Stub.Snapshot.Levels.{AreSorted as AreSortedLevels, snapshot-AreSorted}
use iicpc_sh.Stub.Session.Valid.{serve-IsValid}
use iicpc_sh.Stub.Session.Replies.{Answer, accept_order-Answer}

abbrev pub blank : Order
blank = record {
  order_id = "";
  side = buy;
  order_type = limit;
  price = pos 0;
  quantity = 0;
  remaining = 0;
  entered_at = pos 0;
  session_id = "";
  index = none;
}

abbrev pub empty_stub : Stub
empty_stub = record {
  book = new_orderbook (λ p. blank);
  clock = record { last_timestamp = pos 0; wall = λ n. pos (n + 1000); readings = 0 };
}

abbrev pub message : String → String → String → ℕ → ℕ → IncomingMessage
message type id side price quantity = record {
  type = type;
  order_id = id;
  side = side;
  order_type = "limit";
  price = pos price;
  quantity = pos quantity;
}

-- Two asks at two prices and a bid; the first ask is filled and part of the second.
abbrev pub trading : List (String × Event)
trading =
    ("s1", received (message "order" "a2" "sell" 101 5))
    ∷ ("s1", received (message "order" "a1" "sell" 100 5))
    ∷ ("s2", received (message "order" "b1" "buy" 101 7))
    ∷ []

serve-IsValid_example : IsValid (serve empty_stub trading).0.book
serve-IsValid_example = serve-IsValid empty_stub trading (new_orderbook-IsValid (λ p. blank))

-- Two asks rest.
abbrev asks : List (String × Event)
asks =
    ("s1", received (message "order" "a2" "sell" 101 5))
    ∷ ("s1", received (message "order" "a1" "sell" 100 5))
    ∷ []

abbrev pub two_asks : Stub
two_asks = (serve empty_stub asks).0

pub two_asks-IsValid : IsValid two_asks.book
two_asks-IsValid = serve-IsValid empty_stub asks (new_orderbook-IsValid (λ p. blank))

abbrev pub bid : Order
bid = record blank {
  order_id = "b1";
  price = pos 101;
  quantity = 7;
  remaining = 7;
  session_id = "s2";
}

match-best_first_example :
    AreSorted
      (match two_asks.book bid two_asks.clock).order.side
      (match two_asks.book bid two_asks.clock).fills
match-best_first_example =
    (match-best_first two_asks.book bid two_asks.clock two_asks-IsValid.sound).0

match-IsDone_example : IsDone (match two_asks.book bid two_asks.clock)
match-IsDone_example = match-IsDone two_asks.book bid two_asks.clock

accept_order-Answer_example : Answer bid (accept_order two_asks bid two_asks.clock)
accept_order-Answer_example = accept_order-Answer two_asks bid two_asks.clock

abbrev idle_race : Race
idle_race = record { last_timestamp = pos 0; issued = []; at = λ g. idle }

-- One goroutine reads the clock and swaps.
Reach-AreDecreasing_example : AreDecreasing (pos 5 ∷ [])
unfolding candidate inc_int64
Reach-AreDecreasing_example =
    Reach-AreDecreasing
      (next
        (next
          (next (start {r = idle_race} refl refl (λ g. refl)) (read_clock idle_race 0 (pos 5) refl))
          (load _ 0 (pos 5) refl))
        (swapped _ 0 (pos 0) (pos 5) refl refl))
      (omega arith, record {})

abbrev empty_heap : Heap
empty_heap = record { mem = λ p. record blank { price = pos p }; arr = [] }

empty_heap-IsOrdered : IsOrdered sell empty_heap
empty_heap-IsOrdered = record {
  heap = λ c p q. absurd (omega arith);
  indexed = λ k p. absurd (omega arith);
}

abbrev one_ask : Heap
one_ask = push sell empty_heap 3

one_ask-Pushed : Pushed sell empty_heap 3 one_ask
one_ask-Pushed = push-Pushed sell empty_heap 3 empty_heap-IsOrdered (λ k p. absurd (omega arith))

one_ask-size : 0 < size one_ask
one_ask-size = let g = one_ask-Pushed.grown in omega arith

remove-Removed_example : Removed sell one_ask 0 (remove sell one_ask 0)
remove-Removed_example = remove-Removed sell one_ask 0 one_ask-Pushed.ordered one_ask-size

snapshot-AreSorted_example : AreSortedLevels sell (snapshot sell two_asks.book)
snapshot-AreSorted_example = (snapshot-AreSorted sell two_asks.book).0
