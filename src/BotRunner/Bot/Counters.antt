-- ===== src/BotRunner/Bot/Counters.antt =====
-- The counters of a bot and their sums.
use iicpc_sh.Prelude.{
  ℕ, suc, ◌+◌, ◌-◌, ◌*◌, ◌≡◌, arith, inl, inr, Bool-cases, Option-cases, List, [], ◌∷◌, String, ltb,
  str_eq, eqb_ℤ, pos, sum_of,
}
use iicpc_sh.Prelude.Assoc.{lookup}
use iicpc_sh.BotRunner.Bot.{
  Histogram, Bot, BotMetrics, AggregateMetrics, new_metrics, Reply, send_order, settle, on_ack,
  on_fill, on_reject, on_pending, receive, collect, collect_from, lose_connection, stale_after,
  Action, sends, receives, collects, loses, act, act_all, record_ack, record_fill, merge_step,
  merge_from, merge,
}

-- A histogram that counts the values it is given.
abbrev pub tally : Histogram
tally = record { Carrier = ℕ; new = 0; record_value = λ n d. suc n; merge_of = λ m n. (m + n, 0) }

-- Each counter is twice the number of latencies recorded.
pub record IsDoubled (m : BotMetrics tally) : Type 0 where
  pub acks : m.acks_recv ≡ 2 * m.ack_latency
  pub fills : m.fills_recv ≡ 2 * m.fill_latency

collect_from-IsDoubled :
    (os : List (String × ℕ)) (b : Bot tally) (now : ℕ)
    → IsDoubled b.metrics
    → IsDoubled (collect_from tally os b now).metrics
unfolding collect_from settle
collect_from-IsDoubled [] b now h = h
collect_from-IsDoubled ((k, v) ∷ os) b now h =
    elim (Bool-cases (ltb (stale_after tally) (now - v))) [
      | inl old ↦
          rw (old, collect_from)
            (collect_from-IsDoubled os _ now (record { acks = h.acks; fills = h.fills }))
      | inr young ↦ rw (young, collect_from) (collect_from-IsDoubled os b now h)
    ]

on_pending-IsDoubled :
    (b : Bot tally) (msg : Reply) (d : ℕ)
    → IsDoubled b.metrics
    → IsDoubled (on_pending tally b msg d).metrics
unfolding on_pending on_ack on_fill on_reject record_ack record_fill settle
on_pending-IsDoubled b msg d h =
    let a = h.acks in
    let f = h.fills in
    elim (Bool-cases (str_eq msg.type "ack")) [
      | inl e ↦ rw e (record { acks = omega arith; fills = f })
      | inr e ↦ rw e (elim (Bool-cases (str_eq msg.type "fill")) [
        | inl e' ↦ rw e' (elim (Bool-cases (eqb_ℤ msg.remaining (pos 0))) [
          | inl z ↦ rw z (record { acks = a; fills = omega arith })
          | inr z ↦ rw z (record { acks = a; fills = omega arith })
        ])
        | inr e' ↦ rw e' (elim (Bool-cases (str_eq msg.type "reject")) [
          | inl r ↦ rw r (record { acks = a; fills = f })
          | inr r ↦ rw r (elim (Bool-cases (str_eq msg.type "cancel_ack")) [
            | inl c ↦ rw c (record { acks = a; fills = f })
            | inr c ↦ rw c h
          ])
        ])
      ])
    ]

act-IsDoubled :
    (b : Bot tally) (a : Action tally) → IsDoubled b.metrics → IsDoubled (act tally b a).metrics
unfolding act send_order lose_connection collect receive
act-IsDoubled b (sends oid now) h = record { acks = h.acks; fills = h.fills }
act-IsDoubled b (receives msg now) h = elim (Option-cases (lookup msg.order_id b.pending)) [
  | inl e ↦ rw (e, receive) h
  | inr (v, e) ↦ rw (e, receive) (on_pending-IsDoubled b msg (now - v) h)
]
act-IsDoubled b (collects now) h = collect_from-IsDoubled b.pending b now h
act-IsDoubled b loses h = record { acks = h.acks; fills = h.fills }

-- The counters of acks and of fills stay twice the numbers of acks and of fills whose latency the bot
-- records, whatever happens to it.
pub act_all-IsDoubled :
    (b : Bot tally) (acts : List (Action tally))
    → IsDoubled b.metrics
    → IsDoubled (act_all tally b acts).metrics
unfolding act_all
act_all-IsDoubled b [] h = h
act_all-IsDoubled b (a ∷ acts) h = act_all-IsDoubled (act tally b a) acts (act-IsDoubled b a h)

module _ (H : Histogram) where
  -- The five counters of the totals are the sums of the bots' counters, added to `agg`.
  pub record AreSums (agg : AggregateMetrics H) (bots : List (BotMetrics H))
      (out : AggregateMetrics H) : Type 0 where
    pub orders :
        out.totals.orders_sent
        ≡ agg.totals.orders_sent + sum_of (λ (m : BotMetrics H). m.orders_sent) bots
    pub acks :
        out.totals.acks_recv
        ≡ agg.totals.acks_recv + sum_of (λ (m : BotMetrics H). m.acks_recv) bots
    pub fills :
        out.totals.fills_recv
        ≡ agg.totals.fills_recv + sum_of (λ (m : BotMetrics H). m.fills_recv) bots
    pub rejects :
        out.totals.rejects_recv
        ≡ agg.totals.rejects_recv + sum_of (λ (m : BotMetrics H). m.rejects_recv) bots
    pub stale :
        out.totals.stale_orders
        ≡ agg.totals.stale_orders + sum_of (λ (m : BotMetrics H). m.stale_orders) bots

  merge_from-AreSums :
      (agg : AggregateMetrics H) (bots : List (BotMetrics H))
      → AreSums agg bots (merge_from H agg bots)
  unfolding merge_from sum_of merge_step
  merge_from-AreSums agg [] = record {
    orders = omega arith;
    acks = omega arith;
    fills = omega arith;
    rejects = omega arith;
    stale = omega arith;
  }
  merge_from-AreSums agg (b ∷ bs) =
      let r = merge_from-AreSums (merge_step H agg b) bs in
      let o = r.orders in
      let a = r.acks in
      let f = r.fills in
      let j = r.rejects in
      let s = r.stale in
      record {
        orders = omega arith;
        acks = omega arith;
        fills = omega arith;
        rejects = omega arith;
        stale = omega arith;
      }

  -- The counters of the aggregate are the sums of the counters of all bots.
  merge-AreSums :
      (bots : List (BotMetrics H))
      → AreSums
          (record { totals = new_metrics H; ack_dropped = 0; fill_dropped = 0 })
          bots
          (merge H bots)
  unfolding merge
  merge-AreSums bots = merge_from-AreSums _ bots
