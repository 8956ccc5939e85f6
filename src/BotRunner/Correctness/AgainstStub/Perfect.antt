-- ===== src/BotRunner/Correctness/AgainstStub/Perfect.antt =====
-- A run of the correctness bot against the stub.
use iicpc_sh.Prelude.{ℕ, ◌≡◌, refl}
use iicpc_sh.Stub.Types.{Order}
use iicpc_sh.Stub.Clock.{Clock, now}
use iicpc_sh.BotRunner.Correctness.{
  note, enough, read_replies, check_cancel, check_price, check_qty, check_fill, check_reject,
  check_levels, check_book, check_step, send_step, next_tags, untagged, run_steps, run_sequence,
  run_all, run,
}
use iicpc_sh.BotRunner.Correctness.AgainstStub.{
  unit, order_id, request, decode, unread, play_steps, play_all, stub_network,
}
use iicpc_sh.Stub.Session.{
  is_id_char, all_id_chars, valid_order_id, parse_side, parse_order_type, check_fields, new_order,
  refuse, finish_order, accept_order, enter_order, check_order, handle_order, handle_cancel,
  handle_message, handle_event, serve,
}
use iicpc_sh.Stub.Book.{
  new_orderbook, beyond, can_fill, lower_best, drop_best, fix_best, book_after, fill_best,
  match_loop, match, rest, remove_at, remove, session_orders, remove_all, cancel_session,
}
use iicpc_sh.Stub.Heap
use iicpc_sh.Stub.Snapshot.{add_int64, add_level, collect, insert_level, sort_levels, snapshot}
use iicpc_sh.Prelude.Assoc.{lookup, delete, insert}

-- A stub that has just started passes all 33 assertions of the correctness bot and fails none, whatever
-- its clock reads.
pub run-stub_network :
    (mem : ℕ → Order) (clock : Clock)
    → ((run (stub_network mem clock)).passed ≡ 33) × ((run (stub_network mem clock)).failed ≡ 0)
unfolding note enough read_replies check_cancel check_price check_qty check_fill check_reject
    check_levels check_book check_step send_step next_tags untagged run_steps run_sequence run_all
    run unit order_id request decode unread play_steps play_all stub_network is_id_char all_id_chars
    valid_order_id parse_side parse_order_type check_fields new_order refuse finish_order
    accept_order enter_order check_order handle_order handle_cancel handle_message handle_event
    serve new_orderbook beyond can_fill lower_best drop_best fix_best book_after fill_best
    match_loop match rest remove_at remove session_orders remove_all cancel_session Heap.less
    Heap.swap Heap.up_loop Heap.up Heap.child Heap.down_loop Heap.down Heap.push Heap.drop_last
    Heap.pop Heap.fix Heap.remove add_int64 add_level collect insert_level sort_levels snapshot
    lookup delete insert now
run-stub_network mem clock = (refl, refl)
