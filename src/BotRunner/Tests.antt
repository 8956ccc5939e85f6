-- ===== src/BotRunner/Tests.antt =====
-- The bots on concrete inputs.
use iicpc_sh.Prelude.{
  none, ◌+◌, ◌≡◌, ◌≤◌, refl, String, true, some, List, [], ◌∷◌, pos, length, suc,
}
use iicpc_sh.Prelude.Assoc.{IsMap, lookup, insert, delete}
use iicpc_sh.BotRunner.Correctness.{Network, received, failed, run}
use iicpc_sh.BotRunner.Correctness.Passed.{run-passed}
use iicpc_sh.BotRunner.Correctness.AgainstStub.{stub_network}
use iicpc_sh.BotRunner.Correctness.AgainstStub.Perfect.{run-stub_network}
use iicpc_sh.Stub.Types.{Order, buy, limit}
use iicpc_sh.Stub.Clock.{Clock}
use iicpc_sh.BotRunner.Bot.{
  Bot, new_bot, new_metrics, Action, sends, receives, collects, loses, act, act_all, merge,
  send_order, receive,
}
use iicpc_sh.BotRunner.Bot as B
use iicpc_sh.BotRunner.Bot.Flight.{IsBalanced, AreFresh, act_all-IsBalanced, send_order-leak}
use iicpc_sh.BotRunner.Bot.Counters.{tally, IsDoubled, act_all-IsDoubled}

-- A server that acknowledges each order and has an empty book.
abbrev quiet : Network
quiet = λ name. (
  true,
  λ i. record {
    written = true;
    reads = received (record { type = "ack"; filled_qty = pos 0; fill_price = 0 }) ∷ failed ∷ [];
    book = some (0, 0);
  },
)

run-passed_example : (run quiet).passed ≤ 33
run-passed_example = (run-passed quiet).0

abbrev reply : String → String → B.Reply
reply type id = record { type = type; order_id = id; remaining = pos 0 }

-- Two orders of which one is acknowledged and filled, and a collection after the other is stale.
abbrev session : List (Action tally)
session =
    sends "b0-i0-bid1" 10
    ∷ sends "b0-i0-ask1" 11
    ∷ receives (reply "ack" "b0-i0-ask1") 15
    ∷ receives (reply "fill" "b0-i0-ask1") 16
    ∷ collects 9000000
    ∷ []

new_bot-IsBalanced : IsBalanced tally (new_bot tally)
unfolding IsMap
new_bot-IsBalanced = record { is_map = record {}; counted = refl }

session-AreFresh : AreFresh tally (new_bot tally) session
unfolding AreFresh lookup act send_order insert delete
session-AreFresh = (refl, (refl, (record {}, (record {}, (record {}, record {})))))

act_all-IsBalanced_example : IsBalanced tally (act_all tally (new_bot tally) session)
act_all-IsBalanced_example =
    act_all-IsBalanced tally (new_bot tally) session session-AreFresh new_bot-IsBalanced

abbrev one_sent : List (Action tally)
one_sent = sends "b0-i0-bid1" 10 ∷ []

one_sent-IsBalanced : IsBalanced tally (act_all tally (new_bot tally) one_sent)
unfolding AreFresh lookup
one_sent-IsBalanced =
    act_all-IsBalanced tally (new_bot tally) one_sent (refl, record {}) new_bot-IsBalanced

one_sent-pending : lookup "b0-i0-bid1" (act_all tally (new_bot tally) one_sent).pending ≡ some 10
unfolding act_all act send_order insert lookup
one_sent-pending = refl

-- It is settled after it was sent twice.
abbrev settled : List (Action tally)
settled = receives (reply "reject" "b0-i0-bid1") 30 ∷ []

settled-AreFresh :
    AreFresh tally
      (send_order tally (act_all tally (new_bot tally) one_sent) "b0-i0-bid1" 20)
      settled
unfolding AreFresh
settled-AreFresh = (tt, tt)

send_order-leak_example :
    let b = act_all tally (new_bot tally) one_sent in
    let b' = send_order tally b "b0-i0-bid1" 20 in
    (b'.in_flight ≡ suc b.in_flight)
    × (length b'.pending ≡ length b.pending)
    × ((act_all tally b' settled).in_flight ≡ suc (length (act_all tally b' settled).pending))
send_order-leak_example =
    send_order-leak tally (act_all tally (new_bot tally) one_sent) "b0-i0-bid1" 10 20 settled
      one_sent-IsBalanced one_sent-pending settled-AreFresh

act_all-IsDoubled_example : IsDoubled (act_all tally (new_bot tally) session).metrics
act_all-IsDoubled_example =
    act_all-IsDoubled (new_bot tally) session (record { acks = refl; fills = refl })

abbrev blank : Order
blank = record {
  order_id = "";
  side = buy;
  order_type = limit;
  price = pos 0;
  quantity = 0;
  remaining = 0;
  entered_at = pos 0;
  session_id = "";
  index = none;
}

abbrev clock : Clock
clock = record { last_timestamp = pos 0; wall = λ n. pos (n + 1000); readings = 0 }

run-stub_network_example :
    ((run (stub_network (λ p. blank) clock)).passed ≡ 33)
    × ((run (stub_network (λ p. blank) clock)).failed ≡ 0)
run-stub_network_example = run-stub_network (λ p. blank) clock
