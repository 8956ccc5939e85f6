-- ===== src/Stub/Session.antt =====
-- services/stub/main.go: handleOrder, handleCancel and the loop of streamHandler.
--
-- The book and the clock are shared by the sessions. A handler returns the new state and the
-- messages that it puts on the session's `send` channel, in order. It holds the mutex from its
-- first use of the book to its last, so each handler is one step; its sleep and the channel's
-- blocking change no state.
pub mod Valid
pub mod Replies
pub mod Keys
pub mod Own
use Prim.Native.Char.{code}
use Prim.Native.String.{len}
use iicpc_sh.Prelude.{
  ℕ, ℤ, pos, negsuc, String, Bool, true, false, not, ◌&&◌, ◌||◌, List, [], ◌∷◌, ◌++◌, map, Option,
  none, some, ltb, leb, ◌==◌, str_eq, if◌then◌else◌, leb_ℤ, pos_part,
}
use iicpc_sh.Prelude.Assoc.{lookup}
use iicpc_sh.Stub.Types.{
  IncomingMessage, Order, Side, buy, sell, OrderType, limit, market, FillMessage, Message, ack,
  fill, reject, cancel_ack, invalid_order, invalid_quantity, invalid_price, duplicate_order_id,
  no_liquidity, unknown_order, unauthorized, unknown_type, Reason,
}
use iicpc_sh.Stub.Clock.{Clock, now}
use iicpc_sh.Stub.Book.{Orderbook, match, rest, remove, cancel_session, is_limit}

pub record Stub : Type 0 where
  pub book : Orderbook
  pub clock : Clock

-- `[A-Za-z0-9/-]`
unfoldable pub is_id_char : ℕ → Bool
is_id_char c =
    leb b'A' c && leb c b'Z'
    || leb b'a' c && leb c b'z'
    || leb b'0' c && leb c b'9'
    || c == b'/'
    || c == b'-'

unfoldable pub all_id_chars : String → Bool
unfolding is_id_char
all_id_chars String.[] = true
all_id_chars (String.◌∷◌ c s) = is_id_char (code c) && all_id_chars s

-- The three tests of `msg.OrderID`; one that is not empty matches `^[…]+$` if all its characters do.
unfoldable pub valid_order_id : String → Bool
unfolding all_id_chars
valid_order_id id = not (len id == 0) && not (ltb 64 (len id)) && all_id_chars id

unfoldable pub parse_side : String → Option Side
parse_side s = if str_eq s "buy" then some buy else if str_eq s "sell" then some sell else none

unfoldable pub parse_order_type : String → Option OrderType
parse_order_type s =
    if str_eq s "limit" then some limit else if str_eq s "market" then some market else none

-- The checks of handleOrder before it takes the mutex, in their order: the reason of the first that
-- fails, or the side and the type as they are read from then on.
unfoldable pub check_fields : IncomingMessage → Side → OrderType → Option Reason
check_fields msg side type =
    if leb_ℤ msg.quantity (pos 0)
    then some invalid_quantity
    else if is_limit type && leb_ℤ msg.price (pos 0)
    then some invalid_price
    else none

unfoldable pub new_order : IncomingMessage → Side → OrderType → String → ℤ → Order
new_order msg side type session_id ts = record {
  order_id = msg.order_id;
  side = side;
  order_type = type;
  price = msg.price;
  quantity = pos_part msg.quantity;
  remaining = pos_part msg.quantity;
  entered_at = ts;
  session_id = session_id;
  index = none;
}

-- `s.send <- RejectMessage{…, Timestamp: now()}` and return.
unfoldable pub refuse : Stub → String → Reason → Stub × List Message
unfolding now
refuse st id reason =
    let (ts, clock) = now st.clock in (record st { clock = clock }, reject id reason ts ∷ [])

abbrev pub is_market : OrderType → Bool
is_market market = true
is_market limit = false

-- handleOrder once the order has been matched: `sent` is the ack and the fills.
unfoldable pub finish_order : Orderbook → Order → Clock → List Message → Stub × List Message
unfolding now
finish_order ob order clock sent =
    let (ts, clock') = now clock in
    let left_over : Stub × List Message = (
      record { book = ob; clock = clock' },
      sent ++ (reject order.order_id no_liquidity ts ∷ []),
    ) in
    let resting : Stub × List Message = (record { book = rest ob order; clock = clock }, sent) in
    let done : Stub × List Message = (record { book = ob; clock = clock }, sent) in
    if is_market order.order_type && ltb 0 order.remaining
    then left_over
    else if ltb 0 order.remaining
    then resting
    else done

-- handleOrder from the ack on.
unfoldable pub accept_order : Stub → Order → Clock → Stub × List Message
accept_order st order clock =
    let m = match st.book order clock in
    finish_order m.book m.order m.clock (ack order.order_id order.entered_at ∷ map fill m.fills)

-- (*Session).handleOrder under the mutex.
unfoldable pub enter_order :
    Stub → IncomingMessage → Side → OrderType → String → Stub × List Message
unfolding new_order now
enter_order st msg side type session_id =
    let (ts, clock) = now st.clock in
    let accepted = accept_order st (new_order msg side type session_id ts) clock in
    elim (lookup msg.order_id st.book.orders) [
      | some _ ↦ refuse st msg.order_id duplicate_order_id
      | none ↦ accepted
    ]

-- The checks before the mutex, on the fields as they were read.
unfoldable pub check_order :
    Stub → IncomingMessage → String → Option Side → Option OrderType → Stub × List Message
check_order st msg session_id (some side) (some type) =
    let entered = enter_order st msg side type session_id in
    elim (check_fields msg side type) [
      | some reason ↦ refuse st msg.order_id reason
      | none ↦ entered
    ]
check_order st msg session_id _ _ = refuse st msg.order_id invalid_order

-- (*Session).handleOrder
unfoldable pub handle_order : Stub → IncomingMessage → String → Stub × List Message
handle_order st msg session_id =
    let checked =
      check_order st msg session_id (parse_side msg.side) (parse_order_type msg.order_type) in
    if valid_order_id msg.order_id then checked else refuse st msg.order_id invalid_order

-- (*Session).handleCancel
unfoldable pub handle_cancel : Stub → IncomingMessage → String → Stub × List Message
unfolding now
handle_cancel st msg session_id =
    let (ts, clock) = now st.clock in
    elim (lookup msg.order_id st.book.orders) [
      | none ↦ refuse st msg.order_id unknown_order
      | some p ↦
          if str_eq (st.book.mem p).session_id session_id
          then (
            record { book = remove st.book msg.order_id; clock = clock },
            cancel_ack msg.order_id ts ∷ [],
          )
          else refuse st msg.order_id unauthorized
    ]

-- The `switch` of streamHandler.
unfoldable pub handle_message : Stub → IncomingMessage → String → Stub × List Message
handle_message st msg session_id =
    if str_eq msg.type "order"
    then handle_order st msg session_id
    else if str_eq msg.type "cancel"
    then handle_cancel st msg session_id
    else refuse st msg.order_id unknown_type

-- What a session does to the stub: it sends a message, or its connection ends.
pub data Event : Type 0 where
  received : IncomingMessage → Event
  closed : Event

unfoldable pub handle_event : Stub → String → Event → Stub × List Message
handle_event st session_id (received msg) = handle_message st msg session_id
handle_event st session_id closed = (record st { book = cancel_session st.book session_id }, [])

-- The events of all sessions, in the order in which they take the mutex.
unfoldable pub serve : Stub → List (String × Event) → Stub × List (String × Message)
serve st [] = (st, [])
serve st ((session_id, e) ∷ es) =
    let (st', sent) = handle_event st session_id e in
    let (st'', more) = serve st' es in (st'', map (λ m. (session_id, m)) sent ++ more)
