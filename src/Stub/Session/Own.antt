-- ===== src/Stub/Session/Own.antt =====
-- Whom the answers to a message are about.
use iicpc_sh.Prelude.{
  ◌≡◌, refl, ap, ◌∙◌, inl, inr, some, none, List, [], ◌∷◌, map, String, Option, Bool-cases,
  Option-cases, ltb, str_eq, ◌&&◌, All, All-append,
}
use iicpc_sh.Prelude.Assoc.{lookup}
use iicpc_sh.Stub.Types.{
  Side, Order, OrderType, IncomingMessage, Message, FillMessage, ack, fill, reject, cancel_ack,
}
use iicpc_sh.Stub.Clock.{Clock}
use iicpc_sh.Stub.Book.{Orderbook, match}
use iicpc_sh.Stub.Book.Loop.{match-LoopInv, IsFillOf}
use iicpc_sh.Stub.Session.{
  Stub, is_market, new_order, finish_order, accept_order, enter_order, check_order, check_fields,
  handle_order, handle_cancel, handle_message, valid_order_id, refuse, parse_side, parse_order_type,
}

-- The order that a message is about.
abbrev pub message_id : Message → String
message_id (ack id ts) = id
message_id (fill f) = f.order_id
message_id (reject id reason ts) = id
message_id (cancel_ack id ts) = id

module _ (id : String) where
  -- Each message is about the order `id`.
  abbrev pub AreAbout : List Message → Type 0
  AreAbout ms = All (λ m. message_id m ≡ id) ms

  fills-AreAbout :
      (order : Order) (fs : List FillMessage)
      → order.order_id ≡ id
      → All (IsFillOf order) fs
      → AreAbout (map fill fs)
  fills-AreAbout order [] e h = tt
  fills-AreAbout order (f ∷ fs) e (h, hs) = (h.same_id ∙ e, fills-AreAbout order fs e hs)

  finish_order-AreAbout :
      (ob : Orderbook) (order : Order) (clock : Clock) (sent : List Message)
      → order.order_id ≡ id
      → AreAbout sent
      → AreAbout (finish_order ob order clock sent).1
  unfolding finish_order
  finish_order-AreAbout ob order clock sent e h =
      elim (Bool-cases (is_market order.order_type && ltb 0 order.remaining)) [
        | inl left ↦ rw left (All-append _ sent _ h (e, tt))
        | inr go ↦ rw go (elim (Bool-cases (ltb 0 order.remaining)) [
          | inl wants ↦ rw wants h
          | inr done ↦ rw done h
        ])
      ]

  accept_order-AreAbout :
      (st : Stub) (order : Order) (clock : Clock)
      → order.order_id ≡ id
      → AreAbout (accept_order st order clock).1
  unfolding accept_order
  accept_order-AreAbout st order clock e =
      let m = match st.book order clock in
      let inv = match-LoopInv st.book order clock in
      finish_order-AreAbout m.book m.order m.clock _ (ap (λ (o : Order). o.order_id) inv.same ∙ e)
        (e, fills-AreAbout order m.fills e inv.each)

module _ (st : Stub) (msg : IncomingMessage) (session_id : String) where
  enter_order-AreAbout :
      (side : Side) (type : OrderType)
      → AreAbout msg.order_id (enter_order st msg side type session_id).1
  unfolding enter_order refuse new_order
  enter_order-AreAbout side type = elim (Option-cases (lookup msg.order_id st.book.orders)) [
    | inl e ↦ rw (e, enter_order) (accept_order-AreAbout msg.order_id st _ _ refl)
    | inr (p, e) ↦ rw (e, enter_order) (refl, tt)
  ]

  check_order-AreAbout :
      (side : Option Side) (type : Option OrderType)
      → AreAbout msg.order_id (check_order st msg session_id side type).1
  unfolding check_order refuse
  check_order-AreAbout none type = (refl, tt)
  check_order-AreAbout (some side) none = (refl, tt)
  check_order-AreAbout (some side) (some type) = elim (Option-cases (check_fields msg side type)) [
    | inl e ↦ rw (e, check_order) (enter_order-AreAbout side type)
    | inr (reason, e) ↦ rw (e, check_order) (refl, tt)
  ]

  handle_order-AreAbout : AreAbout msg.order_id (handle_order st msg session_id).1
  unfolding handle_order refuse
  handle_order-AreAbout = elim (Bool-cases (valid_order_id msg.order_id)) [
    | inl e ↦ rw e (check_order-AreAbout (parse_side msg.side) (parse_order_type msg.order_type))
    | inr e ↦ rw e (refl, tt)
  ]

  handle_cancel-AreAbout : AreAbout msg.order_id (handle_cancel st msg session_id).1
  unfolding handle_cancel refuse
  handle_cancel-AreAbout = elim (Option-cases (lookup msg.order_id st.book.orders)) [
    | inl e ↦ rw (e, handle_cancel) (refl, tt)
    | inr (p, e) ↦
        rw (e, handle_cancel)
          (elim (Bool-cases (str_eq (st.book.mem p).session_id session_id)) [
            | inl own ↦ rw own (refl, tt)
            | inr other ↦ rw other (refl, tt)
          ])
  ]

  -- Each answer to a message is about the order that the message names.
  pub handle_message-AreAbout : AreAbout msg.order_id (handle_message st msg session_id).1
  unfolding handle_message refuse
  handle_message-AreAbout = elim (Bool-cases (str_eq msg.type "order")) [
    | inl o ↦ rw o handle_order-AreAbout
    | inr o ↦ rw o (elim (Bool-cases (str_eq msg.type "cancel")) [
      | inl c ↦ rw c handle_cancel-AreAbout
      | inr c ↦ rw c (refl, tt)
    ])
  ]
