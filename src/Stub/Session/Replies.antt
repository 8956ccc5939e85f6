-- ===== src/Stub/Session/Replies.antt =====
-- What a session is told, and what its messages do to the map of orders.
use iicpc_sh.Prelude.{
  suc, ℕ, ℤ, ◌+◌, ◌≡◌, ◌<◌, refl, arith, sym, ◌∙◌, inl, inr, Bool, some, none, ap, List, [], ◌∷◌,
  ◌++◌, map, String, if◌then◌else◌, Option, Bool-cases, Option-cases, subst, false, ltb, str_eq,
  str_eq_iff, ◌&&◌, All, sum_of,
}
use mathlib.Core.List.{append-nil}
use iicpc_sh.Prelude.Assoc.{insert, lookup, delete, lookup-delete, lookup-insert}
use iicpc_sh.Stub.Types.{
  Side, buy, sell, Order, limit, market, IncomingMessage, Message, FillMessage, ack, fill, reject,
  no_liquidity,
}
use iicpc_sh.Stub.Clock.{Clock, now}
use iicpc_sh.Stub.Heap.{update, push}
use iicpc_sh.Stub.Heap.Moves.{erase-push}
use iicpc_sh.Stub.Heap.Priority.{erase}
use iicpc_sh.Stub.Book.{heap_of, Orderbook, match, rest, remove, remove_at}
use iicpc_sh.Stub.Book.Shrinks.{set_heap-orders, set_heap-mem}
use iicpc_sh.Stub.Book.Loop.{match-LoopInv, IsFillOf}
use iicpc_sh.Stub.Session.{Stub, is_market, refuse, finish_order, accept_order, handle_cancel}

rest-lookup : (ob : Orderbook) (o : Order) → lookup o.order_id (rest ob o).orders ≡ some ob.next
unfolding rest
rest-lookup ob o = rw (set_heap-orders o.side _ _) (
    ground (
      arith,
      lookup-insert o.order_id o.order_id ob.next ob.orders,
      str_eq_iff o.order_id o.order_id,
    ))

rest-stored : (ob : Orderbook) (o : Order) → erase ((rest ob o).mem ob.next) ≡ erase o
unfolding rest
rest-stored ob o =
    let on_map : Orderbook = record ob {
      mem = update ob.mem ob.next o;
      next = suc ob.next;
      orders = insert o.order_id ob.next ob.orders;
    } in
    ap (λ (mem : ℕ → Order). erase (mem ob.next)) (set_heap-mem o.side on_map _)
    ∙ stored-heap o.side
  where
    stored-heap :
        (s : Side)
        → erase (
            (push s
                (heap_of s (record ob {
                  mem = update ob.mem ob.next o;
                  next = suc ob.next;
                  orders = insert o.order_id ob.next ob.orders;
                }))
                ob.next).mem
              ob.next)
          ≡ erase o
    stored-heap s = erase-push s _ ob.next ob.next ∙ ground arith

-- The map leads from the id of the order to it, with this quantity left of it.
abbrev pub RestsIn : Orderbook → Order → ℕ → Type 0
RestsIn ob order left =
    (p : ℕ) × ((lookup order.order_id ob.orders ≡ some p)
      × (erase (ob.mem p) ≡ erase (record order { remaining = left })))

-- The answer to an accepted order: the ack, the fills, and a last reject if a market order finds no more.
pub record Answer (order : Order) (r : Stub × List Message) : Type 0 where
  pub fills : List FillMessage
  pub left : ℕ
  pub tail : List Message
  pub sent : r.1 ≡ (ack order.order_id order.entered_at ∷ map fill fills) ++ tail
  pub filled : sum_of (λ (f : FillMessage). f.filled_qty) fills + left ≡ order.remaining
  pub each : All (IsFillOf order) fills
  pub none_left : left ≡ 0 → tail ≡ []
  pub market_left :
      order.order_type ≡ market
      → 0 < left
      → (ts : ℤ) × (tail ≡ reject order.order_id no_liquidity ts ∷ [])
  pub limit_left : order.order_type ≡ limit → 0 < left → (tail ≡ []) × RestsIn r.0.book order left

-- The tail of the answer and the book, in each of the three cases of finish_order.
record Ending (ob : Orderbook) (order : Order) (sent : List Message) (r : Stub × List Message)
    : Type 0 where
  tail : List Message
  said : r.1 ≡ sent ++ tail
  none_left : order.remaining ≡ 0 → tail ≡ []
  market_left :
      order.order_type ≡ market
      → 0 < order.remaining
      → (ts : ℤ) × (tail ≡ reject order.order_id no_liquidity ts ∷ [])
  limit_left :
      order.order_type ≡ limit
      → 0 < order.remaining
      → (tail ≡ []) × RestsIn r.0.book order order.remaining

finish_order-Ending :
    (ob : Orderbook) (order : Order) (clock : Clock) (sent : List Message)
    → Ending ob order sent (finish_order ob order clock sent)
unfolding finish_order
finish_order-Ending ob order clock sent =
    elim (Bool-cases (is_market order.order_type && ltb 0 order.remaining)) [
      | inl left_over ↦ rw left_over (record {
        tail = reject order.order_id no_liquidity (now clock).0 ∷ [];
        said = refl;
        none_left = λ e. absurd (ground arith);
        market_left = λ e p. ((now clock).0, refl);
        limit_left = λ e p. absurd (ground arith);
      })
      | inr go ↦ rw go (elim (Bool-cases (ltb 0 order.remaining)) [
        | inl wants ↦ rw wants (record {
          tail = [];
          said = sym (append-nil sent);
          none_left = λ e. refl;
          market_left = λ e p. absurd (ground arith);
          limit_left = λ e p. (refl, (ob.next, (rest-lookup ob order, rest-stored ob order)));
        })
        | inr done ↦ rw done (record {
          tail = [];
          said = sym (append-nil sent);
          none_left = λ e. refl;
          market_left = λ e p. absurd (ground arith);
          limit_left = λ e p. absurd (ground arith);
        })
      ])
    ]

-- An accepted order is acknowledged first and its fills follow. They and what is left add up to the
-- quantity. What is left of a market order is rejected; of a limit order it rests on the book: the
-- map leads from its id to the order with that quantity.
pub accept_order-Answer :
    (st : Stub) (order : Order) (clock : Clock) → Answer order (accept_order st order clock)
unfolding accept_order
accept_order-Answer st order clock =
    let m = match st.book order clock in
    let inv = match-LoopInv st.book order clock in
    let end =
      finish_order-Ending m.book m.order m.clock
        (ack order.order_id order.entered_at ∷ map fill m.fills) in
    let type = ap (λ (o : Order). o.order_type) inv.same in
    let id = ap (λ (o : Order). o.order_id) inv.same in
    record {
      fills = m.fills;
      left = m.order.remaining;
      tail = end.tail;
      sent = end.said;
      filled = inv.filled;
      each = inv.each;
      none_left = end.none_left;
      market_left = λ e p.
          let (ts, at) = end.market_left (type ∙ e) p in
          (ts, at ∙ ap (λ x. reject x no_liquidity ts ∷ []) id);
      limit_left = λ e p.
          let (none_said, (q, (at, stored))) = end.limit_left (type ∙ e) p in
          (
            none_said,
            (
              q,
              (
                subst (λ x. lookup x (accept_order st order clock).0.book.orders ≡ some q) id at,
                stored
                    ∙ ap (λ (o : Order). erase (record o { remaining = m.order.remaining }))
                        inv.same,
              ),
            ),
          );
    }

pub remove_at-orders :
    (s : Side) (i : Option ℕ) (ob : Orderbook) → (remove_at s i ob).orders ≡ ob.orders
unfolding remove_at
remove_at-orders buy none ob = refl
remove_at-orders sell none ob = refl
remove_at-orders buy (some i) ob = ground arith
remove_at-orders sell (some i) ob = ground arith

pub remove-lookup :
    (ob : Orderbook) (id j : String)
    → lookup j (remove ob id).orders ≡ (if str_eq id j then none else lookup j ob.orders)
unfolding remove
remove-lookup ob id j = elim (Option-cases (lookup id ob.orders)) [
  | inl e ↦ rw (e, remove) (ground (arith, str_eq_iff id j))
  | inr (p, e) ↦
      rw (e, remove)
        (rw
          (remove_at-orders (ob.mem p).side (ob.mem p).index
            (record ob { orders = delete id ob.orders }))
          (lookup-delete id j ob.orders))
]

-- The id belongs to a resting order of the session.
abbrev pub owns : Stub → String → String → Bool
owns st session_id id = elim (lookup id st.book.orders) [
  | none ↦ false
  | some p ↦ str_eq (st.book.mem p).session_id session_id
]

-- A cancel takes the named order off the map if the session owns it, and leaves every other order
-- there; a cancel of an unknown or foreign order changes nothing on the book.
handle_cancel-lookup :
    (st : Stub) (msg : IncomingMessage) (session_id j : String)
    → (lookup j (handle_cancel st msg session_id).0.book.orders ≡ (
        if owns st session_id msg.order_id && str_eq msg.order_id j
        then none
        else lookup j st.book.orders))
      × (owns st session_id msg.order_id ≡ false
          → (handle_cancel st msg session_id).0.book ≡ st.book)
unfolding handle_cancel refuse
handle_cancel-lookup st msg session_id j =
    elim (Option-cases (lookup msg.order_id st.book.orders)) [
      | inl e ↦ rw (e, handle_cancel, owns) (refl, λ h. refl)
      | inr (p, e) ↦ elim (Bool-cases (str_eq (st.book.mem p).session_id session_id)) [
        | inl own ↦
            rw (e, handle_cancel, owns) (rw own (remove-lookup st.book msg.order_id j, λ h. cc))
        | inr other ↦ rw (e, handle_cancel, owns) (rw other (refl, λ h. refl))
      ]
    ]
