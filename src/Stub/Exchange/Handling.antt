-- ===== src/Stub/Exchange/Handling.antt =====
-- The sessions of an exchange in the abstract: what an event may do to the resting orders, and what
-- it may be answered. The readings of the clock are left open.
use iicpc_sh.Prelude.{
  ℤ, ◌≡◌, ◌<◌, ◌⊎◌, true, false, List, [], ◌∷◌, ◌++◌, map, some, none, String, str_eq,
}
use iicpc_sh.Stub.Types.{
  IncomingMessage, Order, Side, buy, sell, OrderType, limit, market, FillMessage, Message, ack,
  fill, reject, cancel_ack, Reason, invalid_order, duplicate_order_id, no_liquidity, unknown_order,
  unauthorized, unknown_type,
}
use iicpc_sh.Stub.Heap.Priority.{erase}
use iicpc_sh.Stub.Session.{
  Event, received, closed, valid_order_id, parse_side, parse_order_type, check_fields, new_order,
}
use iicpc_sh.Stub.Exchange.{Orders, put, take_out, clear_session, Matches, trade_of}

-- How a message names a side and a type of order.
abbrev pub side_name : Side → String
side_name buy = "buy"
side_name sell = "sell"

abbrev pub type_name : OrderType → String
type_name limit = "limit"
type_name market = "market"

-- Why a message is refused.
pub data Refusal (b : Orders) (session : String) (msg : IncomingMessage) : Reason → Type 0 where
  unreadable :
      msg.type ≡ "order"
      → (valid_order_id msg.order_id ≡ false)
        ⊎ ((parse_side msg.side ≡ none) ⊎ (parse_order_type msg.order_type ≡ none))
      → Refusal b session msg invalid_order
  bad_field :
      {reason : Reason} (side : Side) (type : OrderType)
      → msg.type ≡ "order"
      → check_fields msg side type ≡ some reason
      → parse_side msg.side ≡ some side
      → parse_order_type msg.order_type ≡ some type
      → Refusal b session msg reason
  used :
      (o : Order)
      → msg.type ≡ "order"
      → b msg.order_id ≡ some o
      → Refusal b session msg duplicate_order_id
  absent : msg.type ≡ "cancel" → b msg.order_id ≡ none → Refusal b session msg unknown_order
  foreign :
      (o : Order)
      → msg.type ≡ "cancel"
      → b msg.order_id ≡ some o
      → str_eq o.session_id session ≡ false
      → Refusal b session msg unauthorized
  other :
      str_eq msg.type "order" ≡ false
      → str_eq msg.type "cancel" ≡ false
      → Refusal b session msg unknown_type

-- What becomes of an order after its trades: the last replies, and the orders that rest then.
pub data Settles (b : Orders) (o : Order) : List Message → Orders → Type 0 where
  all_filled : o.remaining ≡ 0 → Settles b o [] b
  rests : o.order_type ≡ limit → 0 < o.remaining → Settles b o [] (put (erase o) b)
  left_over :
      (ts : ℤ)
      → o.order_type ≡ market
      → 0 < o.remaining
      → Settles b o (reject o.order_id no_liquidity ts ∷ []) b

-- `Handles b session e replies b'`: the exchange may answer the event so, and go on with `b'`.
pub data Handles (b : Orders) (session : String) : Event → List Message → Orders → Type 0 where
  refused :
      {msg : IncomingMessage} {reason : Reason} (ts : ℤ)
      → Refusal b session msg reason
      → Handles b session (received msg) (reject msg.order_id reason ts ∷ []) b
  entered :
      {msg : IncomingMessage} {b' b'' : Orders} {last : List Message} (side : Side)
      (type : OrderType) (ts : ℤ) (fills : List FillMessage) (o : Order)
      → msg.type ≡ "order"
      → valid_order_id msg.order_id ≡ true
      → msg.side ≡ side_name side
      → msg.order_type ≡ type_name type
      → check_fields msg side type ≡ none
      → b msg.order_id ≡ none
      → Matches b (new_order msg side type session ts) (map trade_of fills) b' o
      → Settles b' o last b''
      → Handles b session (received msg) ((ack msg.order_id ts ∷ map fill fills) ++ last) b''
  cancelled :
      {msg : IncomingMessage} (o : Order) (ts : ℤ)
      → msg.type ≡ "cancel"
      → b msg.order_id ≡ some o
      → str_eq o.session_id session ≡ true
      → Handles b session (received msg) (cancel_ack msg.order_id ts ∷ []) (take_out msg.order_id b)
  ended : Handles b session closed [] (clear_session session b)

-- The events of the sessions one after the other, with the replies to each.
pub data Serves : Orders → List (String × Event) → List (String × Message) → Orders → Type 0 where
  idle : {b : Orders} → Serves b [] [] b
  served :
      {b b' b'' : Orders} {session : String} {e : Event} {es : List (String × Event)}
      {sent : List Message} {more : List (String × Message)}
      → Handles b session e sent b'
      → Serves b' es more b''
      → Serves b ((session, e) ∷ es) (map (λ m. (session, m)) sent ++ more) b''
