-- ===== src/BotRunner/Bot.antt =====
-- services/bot-runner/bot.go and metrics.go: a load bot's book-keeping.
--
-- The goroutines of a bot (the writer, the reader and the one that collects stale orders) share
-- `pending` and the counters under one mutex, so an action below is what one of them does while it
-- holds the mutex, and a list of actions is an interleaving. Times are microseconds. The histograms
-- belong to another package: a `Histogram` is the operations that the bot calls.
-- `inFlight` is an int32 that is lowered only together with an order that was pending.
pub mod Flight
pub mod Counters
pub mod OrderId
pub mod Writer
pub mod AgainstStub
pub mod Reconnect
mod Tests
use iicpc_sh.Prelude.{
  ℕ, suc, ◌+◌, ◌-◌, Bool, Option, none, some, List, [], ◌∷◌, String, ltb, ◌==◌, str_eq,
  if◌then◌else◌, ℤ, pos, eqb_ℤ, length,
}
use iicpc_sh.Prelude.Assoc.{lookup, insert, delete}

-- hdrhistogram.New, RecordValue and Merge, which returns the number of values that it drops.
pub record Histogram : Type 1 where
  pub Carrier : Type 0
  pub new : Carrier
  pub record_value : Carrier → ℕ → Carrier
  pub merge_of : Carrier → Carrier → Carrier × ℕ

-- The fields of IncomingMessage that the reader uses.
pub record Reply : Type 0 where
  pub type : String
  pub order_id : String
  pub remaining : ℤ

module _ (H : Histogram) where
  pub record BotMetrics : Type 0 where
    pub ack_latency : H.Carrier
    pub fill_latency : H.Carrier
    pub orders_sent : ℕ
    pub acks_recv : ℕ
    pub fills_recv : ℕ
    pub rejects_recv : ℕ
    pub stale_orders : ℕ

  -- NewBotMetrics
  abbrev pub new_metrics : BotMetrics
  new_metrics = record {
    ack_latency = H.new;
    fill_latency = H.new;
    orders_sent = 0;
    acks_recv = 0;
    fills_recv = 0;
    rejects_recv = 0;
    stale_orders = 0;
  }

  -- (*BotMetrics).recordAck
  unfoldable pub record_ack : BotMetrics → ℕ → BotMetrics
  record_ack m d = record m {
    ack_latency = H.record_value m.ack_latency d;
    acks_recv = suc m.acks_recv;
  }

  -- (*BotMetrics).recordFill
  unfoldable pub record_fill : BotMetrics → ℕ → BotMetrics
  record_fill m d = record m {
    fill_latency = H.record_value m.fill_latency d;
    fills_recv = suc m.fills_recv;
  }

  -- `pending`, with the time of sending of each order, the counter `inFlight` and the metrics.
  pub record Bot : Type 0 where
    pub pending : List (String × ℕ)
    pub in_flight : ℕ
    pub metrics : BotMetrics

  abbrev pub new_bot : Bot
  new_bot = record { pending = []; in_flight = 0; metrics = new_metrics }

  -- The writer, between its test of `inFlight` and its Write.
  unfoldable pub send_order : Bot → String → ℕ → Bot
  send_order b oid now = record {
    pending = insert oid now b.pending;
    in_flight = suc b.in_flight;
    metrics = record b.metrics { orders_sent = suc b.metrics.orders_sent };
  }

  -- `delete(pending, id)` and `inFlight.Add(-1)`
  unfoldable pub settle : Bot → String → Bot
  settle b id = record b { pending = delete id b.pending; in_flight = b.in_flight - 1 }

  -- The cases of the reader's `switch`.
  unfoldable pub on_ack : Bot → ℕ → Bot
  unfolding record_ack
  on_ack b d =
      let m = record_ack b.metrics d in
      record b { metrics = record m { acks_recv = suc m.acks_recv } }

  unfoldable pub on_fill : Bot → Reply → ℕ → Bot
  unfolding record_fill settle
  on_fill b msg d =
      let m = record_fill b.metrics d in
      let b' : Bot = record b { metrics = record m { fills_recv = suc m.fills_recv } } in
      if eqb_ℤ msg.remaining (pos 0) then settle b' msg.order_id else b'

  unfoldable pub on_reject : Bot → Reply → Bot
  unfolding settle
  on_reject b msg =
      settle (record b { metrics = record b.metrics { rejects_recv = suc b.metrics.rejects_recv } })
        msg.order_id

  unfoldable pub on_pending : Bot → Reply → ℕ → Bot
  on_pending b msg d =
      if str_eq msg.type "ack"
      then on_ack b d
      else if str_eq msg.type "fill"
      then on_fill b msg d
      else if str_eq msg.type "reject"
      then on_reject b msg
      else if str_eq msg.type "cancel_ack"
      then settle b msg.order_id
      else b

  -- The reader, for a message that it could decode.
  unfoldable pub receive : Bot → Reply → ℕ → Bot
  receive b msg now = elim (lookup msg.order_id b.pending) [
    | none ↦ b
    | some sent_at ↦ on_pending b msg (now - sent_at)
  ]

  abbrev pub stale_after : ℕ
  stale_after = 5000000

  -- The loop of the collector over the orders that `pending` held when it began.
  unfoldable pub collect_from : List (String × ℕ) → Bot → ℕ → Bot
  unfolding settle
  collect_from [] b now = b
  collect_from ((id, sent_at) ∷ os) b now =
      let gone : Bot = settle b id in
      let dropped : Bot = record gone {
        metrics = record gone.metrics { stale_orders = suc gone.metrics.stale_orders };
      } in
      let b' : Bot = if ltb stale_after (now - sent_at) then dropped else b in
      collect_from os b' now

  unfoldable pub collect : Bot → ℕ → Bot
  collect b now = collect_from b.pending b now

  -- A read or a write that failed.
  unfoldable pub lose_connection : Bot → Bot
  lose_connection b = record b {
    metrics = record b.metrics { stale_orders = suc b.metrics.stale_orders };
  }

  pub data Action : Type 0 where
    sends : String → ℕ → Action
    receives : Reply → ℕ → Action
    collects : ℕ → Action
    loses : Action

  unfoldable pub act : Bot → Action → Bot
  act b (sends oid now) = send_order b oid now
  act b (receives msg now) = receive b msg now
  act b (collects now) = collect b now
  act b loses = lose_connection b

  -- The actions of the goroutines, one after the other.
  unfoldable pub act_all : Bot → List Action → Bot
  act_all b [] = b
  act_all b (a ∷ acts) = act_all (act b a) acts

  -- AggregateMetrics
  pub record AggregateMetrics : Type 0 where
    pub totals : BotMetrics
    pub ack_dropped : ℕ
    pub fill_dropped : ℕ

  -- One turn of the loop of `merge`.
  unfoldable pub merge_step : AggregateMetrics → BotMetrics → AggregateMetrics
  merge_step agg b =
      let t = agg.totals in
      let acks = H.merge_of t.ack_latency b.ack_latency in
      let fills = H.merge_of t.fill_latency b.fill_latency in
      record {
        totals = record {
          ack_latency = acks.0;
          fill_latency = fills.0;
          orders_sent = t.orders_sent + b.orders_sent;
          acks_recv = t.acks_recv + b.acks_recv;
          fills_recv = t.fills_recv + b.fills_recv;
          rejects_recv = t.rejects_recv + b.rejects_recv;
          stale_orders = t.stale_orders + b.stale_orders;
        };
        ack_dropped = agg.ack_dropped + acks.1;
        fill_dropped = agg.fill_dropped + fills.1;
      }

  unfoldable pub merge_from : AggregateMetrics → List BotMetrics → AggregateMetrics
  merge_from agg [] = agg
  merge_from agg (b ∷ bs) = merge_from (merge_step agg b) bs

  -- merge
  unfoldable pub merge : List BotMetrics → AggregateMetrics
  merge bots = merge_from (record { totals = new_metrics; ack_dropped = 0; fill_dropped = 0 }) bots
