-- ===== src/Stub/Exchange/Serving.antt =====
-- The stub of services/stub/main.go serves its sessions as the exchange does.
use iicpc_sh.Prelude.{
  ℤ, ◌≡◌, refl, arith, sym, inl, inr, some, none, ap, subst, List, [], ◌∷◌, ◌++◌, map, String,
  Option, Bool-cases, Option-cases, false, true, ltb, ltb→lt, str_eq, str_eq_iff, ◌&&◌,
}
use mathlib.Core.List.{append-nil}
use iicpc_sh.Prelude.Assoc.{lookup, IsMap}
use iicpc_sh.Stub.Types.{
  Side, buy, sell, Order, OrderType, limit, market, IncomingMessage, Message, ack, fill, cancel_ack,
  Reason,
}
use iicpc_sh.Stub.Clock.{Clock, now}
use iicpc_sh.Stub.Book.{Orderbook, match}
use iicpc_sh.Stub.Book.Loop.{match-LoopInv}
use iicpc_sh.Stub.Book.Sound.{IsSound}
use iicpc_sh.Stub.Book.Steps.{match-IsSound}
use iicpc_sh.Stub.Book.Clear.{match-lookup}
use iicpc_sh.Stub.Book.Valid.{IsValid}
use iicpc_sh.Stub.Session.{
  Stub, is_market, refuse, new_order, finish_order, accept_order, enter_order, check_order,
  check_fields, handle_order, handle_cancel, handle_message, Event, received, closed, handle_event,
  serve, valid_order_id, parse_side, parse_order_type,
}
use iicpc_sh.Stub.Session.Valid.{handle_event-IsValid}
use iicpc_sh.Stub.Session.Keys.{handle_event-IsMap}
use iicpc_sh.Stub.Exchange.{view}
use iicpc_sh.Stub.Exchange.View.{view-some, view-none}
use iicpc_sh.Stub.Exchange.Refines.{match-Matches}
use iicpc_sh.Stub.Exchange.Changes.{rest-view, remove-view, cancel_session-view}
use iicpc_sh.Stub.Exchange.Handling.{
  Refusal, unreadable, bad_field, used, absent, foreign, other, Settles, all_filled, rests,
  left_over, side_name, type_name, Handles, refused, entered, cancelled, ended, Serves, idle,
  served,
}

market_of : (t : OrderType) → is_market t ≡ true → t ≡ market
market_of market h = refl
market_of limit h = cc

limit_of : (t : OrderType) → is_market t ≡ false → t ≡ limit
limit_of limit h = refl
limit_of market h = cc

parse_side-side_name : (s : String) (d : Side) → parse_side s ≡ some d → s ≡ side_name d
unfolding parse_side
parse_side-side_name s buy h = ground (arith, str_eq_iff s "buy", str_eq_iff s "sell")
parse_side-side_name s sell h = ground (arith, str_eq_iff s "buy", str_eq_iff s "sell")

parse_order_type-type_name :
    (s : String) (t : OrderType) → parse_order_type s ≡ some t → s ≡ type_name t
unfolding parse_order_type
parse_order_type-type_name s limit h = ground (arith, str_eq_iff s "limit", str_eq_iff s "market")
parse_order_type-type_name s market h = ground (arith, str_eq_iff s "limit", str_eq_iff s "market")

-- The last replies of finish_order, and what it leaves.
record Finish (ob : Orderbook) (order : Order) (sent : List Message) (r : Stub × List Message)
    : Type 0 where
  last : List Message
  said : r.1 ≡ sent ++ last
  settles : Settles (view ob) order last (view r.0.book)

finish_order-Finish :
    (ob : Orderbook) (order : Order) (clock : Clock) (sent : List Message)
    → IsSound ob
    → lookup order.order_id ob.orders ≡ none
    → Finish ob order sent (finish_order ob order clock sent)
unfolding finish_order
finish_order-Finish ob order clock sent sound new =
    elim (Bool-cases (is_market order.order_type && ltb 0 order.remaining)) [
      | inl over ↦ rw over (record {
        last = _;
        said = refl;
        settles =
            left_over (now clock).0 (market_of order.order_type (ground arith)) (ground arith);
      })
      | inr go ↦ rw go (elim (Bool-cases (ltb 0 order.remaining)) [
        | inl wants ↦
            let type = limit_of order.order_type (ground arith) in
            rw wants (record {
              last = [];
              said = sym (append-nil sent);
              settles =
                  subst (Settles (view ob) order []) (sym (rest-view ob order sound type new))
                    (rests type (ltb→lt _ _ wants));
            })
        | inr done ↦ rw done (record {
          last = [];
          said = sym (append-nil sent);
          settles = all_filled (ground arith);
        })
      ])
    ]

module _ (st : Stub) (session : String) (sound : IsSound st.book) where
  -- What the stub answers and what it then holds are among what the exchange may do.
  abbrev Follows : Event → Stub × List Message → Type 0
  Follows e r = Handles (view st.book) session e r.1 (view r.0.book)

  refuse-Follows :
      (msg : IncomingMessage) (reason : Reason)
      → Refusal (view st.book) session msg reason
      → Follows (received msg) (refuse st msg.order_id reason)
  unfolding refuse
  refuse-Follows msg reason why = refused (now st.clock).0 why

  module _ (msg : IncomingMessage) where
    accept_order-Follows :
        (side : Side) (type : OrderType) (ts : ℤ) (clock : Clock)
        → msg.type ≡ "order"
        → valid_order_id msg.order_id ≡ true
        → msg.side ≡ side_name side
        → msg.order_type ≡ type_name type
        → check_fields msg side type ≡ none
        → lookup msg.order_id st.book.orders ≡ none
        → Follows (received msg) (accept_order st (new_order msg side type session ts) clock)
    unfolding accept_order new_order
    accept_order-Follows side type ts clock is_order valid s t ok new =
        let order = new_order msg side type session ts in
        let m = match st.book order clock in
        let same = (match-LoopInv st.book order clock).same in
        let sent = ack msg.order_id ts ∷ map fill m.fills in
        let r = finish_order m.book m.order m.clock sent in
        let end =
          finish_order-Finish m.book m.order m.clock sent (match-IsSound st.book order clock sound)
            (rw (ap (λ (o : Order). o.order_id) same)
              (match-lookup st.book order clock msg.order_id new)) in
        subst (λ replies. Handles (view st.book) session (received msg) replies (view r.0.book))
          (sym end.said)
          (entered side type ts m.fills m.order is_order valid s t ok
            (view-none st.book msg.order_id new) (match-Matches st.book order clock sound)
            end.settles)

    enter_order-Follows :
        (side : Side) (type : OrderType)
        → msg.type ≡ "order"
        → valid_order_id msg.order_id ≡ true
        → msg.side ≡ side_name side
        → msg.order_type ≡ type_name type
        → check_fields msg side type ≡ none
        → Follows (received msg) (enter_order st msg side type session)
    unfolding enter_order
    enter_order-Follows side type is_order valid s t ok =
        elim (Option-cases (lookup msg.order_id st.book.orders)) [
          | inl new ↦
              rw (new, enter_order)
                (accept_order-Follows side type (now st.clock).0 (now st.clock).1 is_order valid s t
                  ok new)
          | inr (p, taken) ↦
              rw (taken, enter_order)
                (refuse-Follows msg _ (used _ is_order (view-some st.book msg.order_id p taken)))
        ]

    check_order-Follows :
        (side : Option Side) (type : Option OrderType)
        → msg.type ≡ "order"
        → valid_order_id msg.order_id ≡ true
        → parse_side msg.side ≡ side
        → parse_order_type msg.order_type ≡ type
        → Follows (received msg) (check_order st msg session side type)
    unfolding check_order
    check_order-Follows none type is_order valid s t =
        refuse-Follows msg _ (unreadable is_order (inr (inl s)))
    check_order-Follows (some side) none is_order valid s t =
        refuse-Follows msg _ (unreadable is_order (inr (inr t)))
    check_order-Follows (some side) (some type) is_order valid s t =
        elim (Option-cases (check_fields msg side type)) [
          | inl ok ↦
              rw (ok, check_order)
                (enter_order-Follows side type is_order valid (parse_side-side_name msg.side side s)
                  (parse_order_type-type_name msg.order_type type t) ok)
          | inr (r, bad) ↦
              rw (bad, check_order) (refuse-Follows msg r (bad_field side type is_order bad s t))
        ]

    handle_order-Follows : msg.type ≡ "order" → Follows (received msg) (handle_order st msg session)
    unfolding handle_order
    handle_order-Follows is_order = elim (Bool-cases (valid_order_id msg.order_id)) [
      | inl ok ↦ rw ok (check_order-Follows _ _ is_order ok refl refl)
      | inr bad ↦ rw bad (refuse-Follows msg _ (unreadable is_order (inl bad)))
    ]

    handle_cancel-Follows :
        msg.type ≡ "cancel" → Follows (received msg) (handle_cancel st msg session)
    unfolding handle_cancel
    handle_cancel-Follows is_cancel = elim (Option-cases (lookup msg.order_id st.book.orders)) [
      | inl missing ↦
          rw (missing, handle_cancel)
            (refuse-Follows msg _ (absent is_cancel (view-none st.book msg.order_id missing)))
      | inr (p, found) ↦
          let seen = view-some st.book msg.order_id p found in
          elim (Bool-cases (str_eq (st.book.mem p).session_id session)) [
            | inl own ↦
                rw (found, handle_cancel)
                  (rw own (
                    subst
                      (Handles (view st.book) session (received msg)
                        (cancel_ack msg.order_id (now st.clock).0 ∷ []))
                      (sym (remove-view st.book msg.order_id sound))
                      (cancelled _ (now st.clock).0 is_cancel seen own)))
            | inr theirs ↦
                rw (found, handle_cancel)
                  (rw theirs (refuse-Follows msg _ (foreign _ is_cancel seen theirs)))
          ]
    ]

    handle_message-Follows : Follows (received msg) (handle_message st msg session)
    unfolding handle_message
    handle_message-Follows = elim (Bool-cases (str_eq msg.type "order")) [
      | inl order ↦ rw order (handle_order-Follows ((str_eq_iff msg.type "order").0 order))
      | inr no_order ↦ rw no_order (elim (Bool-cases (str_eq msg.type "cancel")) [
        | inl cancel ↦ rw cancel (handle_cancel-Follows ((str_eq_iff msg.type "cancel").0 cancel))
        | inr unknown ↦ rw unknown (refuse-Follows msg _ (other no_order unknown))
      ])
    ]

  handle_event-Follows : (e : Event) → IsMap st.book.orders → Follows e (handle_event st session e)
  unfolding handle_event
  handle_event-Follows (received msg) keys = handle_message-Follows msg
  handle_event-Follows closed keys =
      subst (λ b. Handles (view st.book) session closed [] b)
        (sym (cancel_session-view st.book session sound keys)) ended

-- Every run of the stub is a run of the exchange: from a valid book whose map has each id once, whatever
-- the sessions send and in whatever order, each reply and each change of the resting orders is one that
-- the exchange may make.
pub serve-Serves :
    (st : Stub) (es : List (String × Event))
    → IsValid st.book
    → IsMap st.book.orders
    → Serves (view st.book) es (serve st es).1 (view (serve st es).0.book)
unfolding serve
serve-Serves st [] valid keys = idle
serve-Serves st ((session, e) ∷ es) valid keys =
    let st' = (handle_event st session e).0 in
    served (handle_event-Follows st session valid.sound e keys) (
      serve-Serves st' es (handle_event-IsValid st valid session e)
        (handle_event-IsMap st session e keys))
