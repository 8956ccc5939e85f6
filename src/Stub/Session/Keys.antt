-- ===== src/Stub/Session/Keys.antt =====
-- The map of orders has each id once, whatever the sessions send.
use iicpc_sh.Prelude.{
  ℕ, zero, suc, inl, inr, some, List, [], ◌∷◌, String, Option, Bool-cases, Option-cases, ltb,
  str_eq, ◌&&◌,
}
use iicpc_sh.Prelude.Assoc.{lookup, IsMap, delete-IsMap, insert-IsMap}
use iicpc_sh.Stub.Types.{Side, Order, OrderType, IncomingMessage}
use iicpc_sh.Stub.Clock.{Clock}
use iicpc_sh.Stub.Book.{
  Orderbook, Matching, match, match_loop, rounds, can_fill, fill_best, rest, remove, remove_all,
  cancel_session, session_orders,
}
use iicpc_sh.Stub.Book.Loop.{start}
use iicpc_sh.Stub.Book.Clear.{book_after-orders}
use iicpc_sh.Stub.Book.Shrinks.{set_heap-orders}
use iicpc_sh.Stub.Session.{
  Stub, is_market, finish_order, accept_order, enter_order, check_order, check_fields, handle_order,
  handle_cancel, handle_message, Event, received, closed, handle_event, valid_order_id, refuse,
}
use iicpc_sh.Stub.Session.Replies.{remove_at-orders}

abbrev pub HasKeys : Orderbook → Type 0
HasKeys ob = IsMap ob.orders

fill_best-HasKeys : (m : Matching) → HasKeys m.book → HasKeys (fill_best m).book
unfolding fill_best
fill_best-HasKeys m h = elim (book_after-orders m) [
  | inl same ↦ rw same h
  | inr less ↦ rw less (delete-IsMap _ m.book.orders h)
]

match_loop-HasKeys : (fuel : ℕ) (m : Matching) → HasKeys m.book → HasKeys (match_loop fuel m).book
unfolding match_loop
match_loop-HasKeys zero m h = h
match_loop-HasKeys (suc fuel) m h = elim (Bool-cases (can_fill m)) [
  | inl go ↦ rw go (match_loop-HasKeys fuel (fill_best m) (fill_best-HasKeys m h))
  | inr stop ↦ rw stop h
]

rest-HasKeys : (ob : Orderbook) (o : Order) → HasKeys ob → HasKeys (rest ob o)
unfolding rest
rest-HasKeys ob o h = rw (set_heap-orders o.side _ _) (insert-IsMap o.order_id ob.next ob.orders h)

remove-HasKeys : (ob : Orderbook) (id : String) → HasKeys ob → HasKeys (remove ob id)
unfolding remove
remove-HasKeys ob id h = elim (Option-cases (lookup id ob.orders)) [
  | inl e ↦ rw (e, remove) h
  | inr (p, e) ↦
      rw (e, remove)
        (rw (remove_at-orders (ob.mem p).side (ob.mem p).index _) (delete-IsMap id ob.orders h))
]

remove_all-HasKeys : (ob : Orderbook) (ids : List String) → HasKeys ob → HasKeys (remove_all ob ids)
unfolding remove_all
remove_all-HasKeys ob [] h = h
remove_all-HasKeys ob (id ∷ ids) h = remove_all-HasKeys (remove ob id) ids (remove-HasKeys ob id h)

module _ (st : Stub) (h : HasKeys st.book) where
  accept_order-HasKeys :
      (order : Order) (clock : Clock) → HasKeys (accept_order st order clock).0.book
  unfolding accept_order finish_order match
  accept_order-HasKeys order clock =
      let m = start st.book order clock in
      let m' = match_loop (suc (rounds m)) m in
      let matched = match_loop-HasKeys (suc (rounds m)) m h in
      elim (Bool-cases (is_market m'.order.order_type && ltb 0 m'.order.remaining)) [
        | inl left_over ↦ rw left_over matched
        | inr go ↦ rw go (elim (Bool-cases (ltb 0 m'.order.remaining)) [
          | inl wants ↦ rw wants (rest-HasKeys m'.book m'.order matched)
          | inr filled ↦ rw filled matched
        ])
      ]

  module _ (msg : IncomingMessage) (session : String) where
    enter_order-HasKeys :
        (side : Side) (type : OrderType) → HasKeys (enter_order st msg side type session).0.book
    unfolding enter_order refuse
    enter_order-HasKeys side type = elim (Option-cases (lookup msg.order_id st.book.orders)) [
      | inl new ↦ rw (new, enter_order) (accept_order-HasKeys _ _)
      | inr (p, used) ↦ rw (used, enter_order) h
    ]

    check_order-HasKeys :
        (side : Option Side) (type : Option OrderType)
        → HasKeys (check_order st msg session side type).0.book
    unfolding check_order refuse
    check_order-HasKeys (some side) (some type) = elim (Option-cases (check_fields msg side type)) [
      | inl ok ↦ rw (ok, check_order) (enter_order-HasKeys side type)
      | inr (r, bad) ↦ rw (bad, check_order) h
    ]
    check_order-HasKeys _ _ = h

    handle_order-HasKeys : HasKeys (handle_order st msg session).0.book
    unfolding handle_order refuse
    handle_order-HasKeys = elim (Bool-cases (valid_order_id msg.order_id)) [
      | inl ok ↦ rw ok (check_order-HasKeys _ _)
      | inr bad ↦ rw bad h
    ]

    handle_cancel-HasKeys : HasKeys (handle_cancel st msg session).0.book
    unfolding handle_cancel refuse
    handle_cancel-HasKeys = elim (Option-cases (lookup msg.order_id st.book.orders)) [
      | inl missing ↦ rw (missing, handle_cancel) h
      | inr (p, found) ↦ elim (Bool-cases (str_eq (st.book.mem p).session_id session)) [
        | inl own ↦ rw (found, handle_cancel) (rw own (remove-HasKeys st.book msg.order_id h))
        | inr theirs ↦ rw (found, handle_cancel) (rw theirs h)
      ]
    ]

    handle_message-HasKeys : HasKeys (handle_message st msg session).0.book
    unfolding handle_message refuse
    handle_message-HasKeys = elim (Bool-cases (str_eq msg.type "order")) [
      | inl order ↦ rw order handle_order-HasKeys
      | inr no_order ↦ rw no_order (elim (Bool-cases (str_eq msg.type "cancel")) [
        | inl cancel ↦ rw cancel handle_cancel-HasKeys
        | inr unknown ↦ rw unknown h
      ])
    ]

pub handle_event-IsMap :
    (st : Stub) (session : String) (e : Event)
    → HasKeys st.book
    → HasKeys (handle_event st session e).0.book
unfolding handle_event cancel_session
handle_event-IsMap st session (received msg) h = handle_message-HasKeys st h msg session
handle_event-IsMap st session closed h =
    remove_all-HasKeys st.book (session_orders st.book.mem session st.book.orders) h
