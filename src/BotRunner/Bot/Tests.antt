-- ===== src/BotRunner/Bot/Tests.antt =====
-- A load bot and the stub on concrete inputs.
use iicpc_sh.Prelude.{
  ◌≤◌, length, ltb, List, false, true, sym, ◌+◌, ◌≡◌, ◌≢◌, refl, arith, pos, String, none, [], ◌∷◌,
  str_eq_iff,
}
use iicpc_sh.Prelude.Assoc.{lookup, delete, insert}
use iicpc_sh.Stub.Types.{IncomingMessage, buy, limit}
use iicpc_sh.Stub.Session.{
  Stub, is_id_char, all_id_chars, valid_order_id, parse_side, parse_order_type, check_fields,
  new_order, refuse, finish_order, accept_order, enter_order, check_order, handle_order,
  handle_cancel, handle_message,
}
use iicpc_sh.Stub.Clock.{now}
use iicpc_sh.Stub.Heap
use iicpc_sh.Stub.Book.{
  new_orderbook, beyond, can_fill, lower_best, drop_best, fix_best, book_after, fill_best,
  match_loop, match, rest,
}
use iicpc_sh.BotRunner.Bot.{
  lose_connection, Bot, new_bot, send_order, receive, on_pending, on_ack, on_fill, on_reject,
  settle, record_ack, record_fill,
}
use iicpc_sh.BotRunner.Bot.AgainstStub.{decode, hear, trade, trade-pending}
use iicpc_sh.BotRunner.Bot.Counters.{tally}
use iicpc_sh.BotRunner.Main.{sequence_of}
use iicpc_sh.BotRunner.Bot.Writer.{
  write_loop, write_templates, write_template, put_order, write_cancel, other_acts, new_writer,
  max_in_flight, templates_of,
}
use iicpc_sh.BotRunner.Bot.Reconnect.{Dial, refused, dialed, run_bot, read_error}
use iicpc_sh.BotRunner.Bot.Reconnect.Leaks.{run_bot-bounded}
use iicpc_sh.BotRunner.Bot.OrderId.{order_id}
use iicpc_sh.Prelude.Decimal.{show_nat, show_loop, digit}

abbrev empty_stub : Stub
empty_stub = record {
  book = new_orderbook (λ p. record {
    order_id = "";
    side = buy;
    order_type = limit;
    price = pos 0;
    quantity = 0;
    remaining = 0;
    entered_at = pos 0;
    session_id = "";
    index = none;
  });
  clock = record { last_timestamp = pos 0; wall = λ n. pos (n + 1000); readings = 0 };
}

abbrev message : String → String → IncomingMessage
message id side = record {
  type = "order";
  order_id = id;
  side = side;
  order_type = "limit";
  price = pos 1000;
  quantity = pos 10;
}

-- The bot's bid, and its ask that fills the bid.
abbrev bid : IncomingMessage
bid = message "b0-i0-bid1" "buy"

abbrev ask : IncomingMessage
ask = message "b0-i0-ask1" "sell"

abbrev one_bid : Stub × Bot tally
one_bid =
    trade tally "s0" empty_stub (send_order tally (new_bot tally) "b0-i0-bid1" 5) ((bid, 6) ∷ [])

differs : bid.order_id ≢ ask.order_id
differs e = ground (arith, str_eq_iff bid.order_id ask.order_id)

trade-pending_example :
    lookup "b0-i0-bid1"
      (trade tally "s0" one_bid.0
        (send_order tally one_bid.1 "b0-i0-ask1" 7)
        ((ask, 8) ∷ [])).1.pending
    ≡ lookup "b0-i0-bid1" (send_order tally one_bid.1 "b0-i0-ask1" 7).pending
trade-pending_example =
    trade-pending tally "b0-i0-bid1" "s0" one_bid.0 (send_order tally one_bid.1 "b0-i0-ask1" 7)
      ((ask, 8) ∷ []) ((λ e. differs (sym e)), tt)

-- The ask fills the bid, so the book is empty, and the bid stays pending.
bid_filled :
    let (st, b) =
      trade tally "s0" one_bid.0 (send_order tally one_bid.1 "b0-i0-ask1" 7) ((ask, 8) ∷ []) in
    (st.book.orders ≡ []) × (b.pending ≡ ("b0-i0-bid1", 5) ∷ []) × (b.in_flight ≡ 1)
unfolding trade hear decode receive on_pending on_ack on_fill on_reject settle send_order record_ack
    record_fill is_id_char all_id_chars valid_order_id parse_side parse_order_type check_fields
    new_order refuse finish_order accept_order enter_order check_order handle_order handle_cancel
    handle_message new_orderbook beyond can_fill lower_best drop_best fix_best book_after fill_best
    match_loop match rest Heap.less Heap.swap Heap.up_loop Heap.up Heap.child Heap.down_loop
    Heap.down Heap.push Heap.drop_last Heap.pop Heap.fix lookup delete insert now
bid_filled = (refl, refl, refl)

-- Two connections, of which the first breaks at the second order, so that the first is sent again.
abbrev dials : List Dial
dials =
    refused
    ∷ dialed
        ((record { others = []; time = 30; written = true }
            ∷ record { others = []; time = 31; written = false }
            ∷ [])
          ∷ [])
        false
    ∷ dialed ((record { others = []; time = 40; written = true } ∷ []) ∷ []) false
    ∷ []

run_bot-bounded_example :
    let b = (run_bot tally 0 (templates_of (sequence_of 0)) (new_writer tally) dials).0.bot in
    (b.in_flight ≤ 21)
    × ((b.in_flight ≤ length b.pending + 20)
        × (b.pending ≡ [] → ltb max_in_flight b.in_flight ≡ false))
run_bot-bounded_example = run_bot-bounded tally 0 (templates_of (sequence_of 0)) dials

-- Both orders of that iteration, and the first again: one is leaked.
leaked_one :
    let b = (run_bot tally 0 (templates_of (sequence_of 0)) (new_writer tally) dials).0.bot in
    (b.in_flight ≡ 3) × (length b.pending ≡ 2)
unfolding run_bot read_error write_loop write_templates write_template put_order write_cancel
    other_acts send_order lose_connection sequence_of insert delete order_id show_nat show_loop
    digit
leaked_one = (refl, refl)
