-- ===== src/Stub/Session/Valid.antt =====
-- The order book stays valid whatever the sessions send.
use iicpc_sh.Prelude.{
  ◌≡◌, ◌<◌, refl, arith, sym, ◌∙◌, inl, inr, some, none, ap, List, [], ◌∷◌, map, String, Option,
  Bool-cases, Option-cases, false, ltb, ltb→lt, str_eq, ◌&&◌,
}
use iicpc_sh.Prelude.Assoc.{lookup}
use iicpc_sh.Stub.Types.{
  Side, Order, OrderType, limit, market, IncomingMessage, Message, ack, fill, Reason,
}
use iicpc_sh.Stub.Clock.{Clock, now}
use iicpc_sh.Stub.Book.{Orderbook, match}
use iicpc_sh.Stub.Book.Loop.{match-LoopInv}
use iicpc_sh.Stub.Book.Valid.{
  IsValid, IsClear, match-IsValid, rest-IsValid, remove-IsValid, cancel_session-IsValid,
}
use iicpc_sh.Stub.Book.Clear.{match-IsClear, match-lookup}
use iicpc_sh.Stub.Session.{
  Stub, is_market, refuse, new_order, finish_order, accept_order, enter_order, check_order,
  check_fields, handle_order, handle_cancel, handle_message, Event, received, closed, handle_event,
  serve, valid_order_id,
}

limit_of : (t : OrderType) → is_market t ≡ false → t ≡ limit
limit_of limit h = refl
limit_of market h = cc

finish_order-IsValid :
    (ob : Orderbook) (order : Order) (clock : Clock) (sent : List Message)
    → IsValid ob
    → (order.order_type ≡ limit → 0 < order.remaining → IsClear ob order)
    → lookup order.order_id ob.orders ≡ none
    → IsValid (finish_order ob order clock sent).0.book
unfolding finish_order
finish_order-IsValid ob order clock sent v clear new =
    elim (Bool-cases (is_market order.order_type && ltb 0 order.remaining)) [
      | inl left_over ↦ rw left_over v
      | inr go ↦ rw go (elim (Bool-cases (ltb 0 order.remaining)) [
        | inl wants ↦
            let type = limit_of order.order_type (ground arith) in
            rw wants
              (rest-IsValid ob order v type new (ltb→lt _ _ wants) (clear type (ltb→lt _ _ wants)))
        | inr filled ↦ rw filled v
      ])
    ]

accept_order-IsValid :
    (st : Stub) (order : Order) (clock : Clock)
    → IsValid st.book
    → lookup order.order_id st.book.orders ≡ none
    → IsValid (accept_order st order clock).0.book
unfolding accept_order
accept_order-IsValid st order clock v new =
    let m = match st.book order clock in
    let same = (match-LoopInv st.book order clock).same in
    finish_order-IsValid m.book m.order m.clock
      (ack order.order_id order.entered_at ∷ map fill m.fills) (match-IsValid st.book order clock v)
      (λ type wants.
        match-IsClear st.book order clock v (sym (ap (λ (o : Order). o.order_type) same) ∙ type)
          wants)
      (rw (ap (λ (o : Order). o.order_id) same)
        (match-lookup st.book order clock order.order_id new))

module _ (st : Stub) (v : IsValid st.book) where
  refuse-IsValid : (id : String) (r : Reason) → IsValid (refuse st id r).0.book
  unfolding refuse
  refuse-IsValid id r = v

  enter_order-IsValid :
      (msg : IncomingMessage) (side : Side) (type : OrderType) (session_id : String)
      → IsValid (enter_order st msg side type session_id).0.book
  unfolding enter_order
  enter_order-IsValid msg side type session_id =
      let (ts, clock) = now st.clock in
      elim (Option-cases (lookup msg.order_id st.book.orders)) [
        | inl new ↦
            rw (new, enter_order)
              (accept_order-IsValid st (new_order msg side type session_id ts) clock v new)
        | inr (p, used) ↦ rw (used, enter_order) (refuse-IsValid msg.order_id _)
      ]

  check_order-IsValid :
      (msg : IncomingMessage) (session_id : String) (side : Option Side) (type : Option OrderType)
      → IsValid (check_order st msg session_id side type).0.book
  unfolding check_order
  check_order-IsValid msg session_id (some side) (some type) =
      elim (Option-cases (check_fields msg side type)) [
        | inl ok ↦ rw (ok, check_order) (enter_order-IsValid msg side type session_id)
        | inr (r, bad) ↦ rw (bad, check_order) (refuse-IsValid msg.order_id r)
      ]
  check_order-IsValid msg session_id _ _ = refuse-IsValid msg.order_id _

  handle_order-IsValid :
      (msg : IncomingMessage) (session_id : String)
      → IsValid (handle_order st msg session_id).0.book
  unfolding handle_order
  handle_order-IsValid msg session_id = elim (Bool-cases (valid_order_id msg.order_id)) [
    | inl ok ↦ rw ok (check_order-IsValid msg session_id _ _)
    | inr bad ↦ rw bad (refuse-IsValid msg.order_id _)
  ]

  handle_cancel-IsValid :
      (msg : IncomingMessage) (session_id : String)
      → IsValid (handle_cancel st msg session_id).0.book
  unfolding handle_cancel
  handle_cancel-IsValid msg session_id = elim (Option-cases (lookup msg.order_id st.book.orders)) [
    | inl none_such ↦ rw (none_such, handle_cancel) (refuse-IsValid msg.order_id _)
    | inr (p, found) ↦ elim (Bool-cases (str_eq (st.book.mem p).session_id session_id)) [
      | inl own ↦ rw (found, handle_cancel) (rw own (remove-IsValid st.book msg.order_id v))
      | inr other ↦ rw (found, handle_cancel) (rw other (refuse-IsValid msg.order_id _))
    ]
  ]

  handle_message-IsValid :
      (msg : IncomingMessage) (session_id : String)
      → IsValid (handle_message st msg session_id).0.book
  unfolding handle_message
  handle_message-IsValid msg session_id = elim (Bool-cases (str_eq msg.type "order")) [
    | inl order ↦ rw order (handle_order-IsValid msg session_id)
    | inr other ↦ rw other (elim (Bool-cases (str_eq msg.type "cancel")) [
      | inl cancel ↦ rw cancel (handle_cancel-IsValid msg session_id)
      | inr unknown ↦ rw unknown (refuse-IsValid msg.order_id _)
    ])
  ]

  pub handle_event-IsValid :
      (session_id : String) (e : Event) → IsValid (handle_event st session_id e).0.book
  unfolding handle_event
  handle_event-IsValid session_id (received msg) = handle_message-IsValid msg session_id
  handle_event-IsValid session_id closed = cancel_session-IsValid st.book session_id v

-- From a valid book, every sequence of events of any sessions leads to a valid book.
pub serve-IsValid :
    (st : Stub) (es : List (String × Event)) → IsValid st.book → IsValid (serve st es).0.book
unfolding serve
serve-IsValid st [] v = v
serve-IsValid st ((session_id, e) ∷ es) v =
    serve-IsValid (handle_event st session_id e).0 es (handle_event-IsValid st v session_id e)
