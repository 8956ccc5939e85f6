-- ===== src/BotRunner/Bot/Writer/Bounded.antt =====
-- The backpressure: how many orders of a bot are in flight at most.
use iicpc_sh.Prelude.{
  ℕ, suc, ◌-◌, ◌≤◌, arith, inl, inr, Bool, Option, none, some, List, [], ◌∷◌, String, ltb, str_eq,
  if◌then◌else◌, Bool-cases, Option-cases, eqb_ℤ, pos, false, true,
}
use iicpc_sh.Prelude.Assoc.{lookup}
use iicpc_sh.BotRunner.Bot.{
  Histogram, Bot, Reply, settle, on_ack, on_fill, on_reject, on_pending, receive, collect,
  collect_from, send_order, lose_connection, stale_after,
}
use iicpc_sh.BotRunner.Bot.Writer.{
  Template, Other, receives, collects, Turn, Going, on, broken, waiting, Writer, other_act,
  other_acts, put_order, write_cancel, write_template, go_on, write_templates, write_loop,
  max_in_flight,
}

module _ (H : Histogram) where
  on_pending-fewer :
      (b : Bot H) (msg : Reply) (d : ℕ) → (on_pending H b msg d).in_flight ≤ b.in_flight
  unfolding on_pending on_ack on_fill on_reject settle
  on_pending-fewer b msg d = elim (Bool-cases (str_eq msg.type "ack")) [
    | inl a ↦ rw a (omega arith)
    | inr a ↦ rw a (elim (Bool-cases (str_eq msg.type "fill")) [
      | inl f ↦ rw f (elim (Bool-cases (eqb_ℤ msg.remaining (pos 0))) [
        | inl z ↦ rw z (omega arith)
        | inr z ↦ rw z (omega arith)
      ])
      | inr f ↦ rw f (elim (Bool-cases (str_eq msg.type "reject")) [
        | inl r ↦ rw r (omega arith)
        | inr r ↦ rw r (elim (Bool-cases (str_eq msg.type "cancel_ack")) [
          | inl c ↦ rw c (omega arith)
          | inr c ↦ rw c (omega arith)
        ])
      ])
    ])
  ]

  receive-fewer :
      (b : Bot H) (msg : Reply) (now : ℕ) → (receive H b msg now).in_flight ≤ b.in_flight
  unfolding receive
  receive-fewer b msg now = elim (Option-cases (lookup msg.order_id b.pending)) [
    | inl e ↦ rw (e, receive) (omega arith)
    | inr (v, e) ↦ rw (e, receive) (on_pending-fewer b msg (now - v))
  ]

  le_trans : {a b c : ℕ} → a ≤ b → b ≤ c → a ≤ c
  le_trans h k = omega arith

  dropped-fewer :
      (b : Bot H) (id : String) (stale : Bool)
      → (if stale
          then record (settle H b id) {
            metrics = record (settle H b id).metrics {
              stale_orders = suc (settle H b id).metrics.stale_orders;
            };
          }
          else b).in_flight
        ≤ b.in_flight
  unfolding settle
  dropped-fewer b id true = omega arith
  dropped-fewer b id false = omega arith

  collect_from-fewer :
      (os : List (String × ℕ)) (b : Bot H) (now : ℕ)
      → (collect_from H os b now).in_flight ≤ b.in_flight
  unfolding collect_from settle
  collect_from-fewer [] b now = omega arith
  collect_from-fewer ((id, sent_at) ∷ os) b now =
      le_trans (collect_from-fewer os _ now)
        (dropped-fewer b id (ltb (stale_after H) (now - sent_at)))

  other_acts-fewer : (b : Bot H) (os : List Other) → (other_acts H b os).in_flight ≤ b.in_flight
  unfolding other_acts other_act collect
  other_acts-fewer b [] = omega arith
  other_acts-fewer b (receives msg now ∷ os) =
      omega (arith, other_acts-fewer (receive H b msg now) os, receive-fewer b msg now)
  other_acts-fewer b (collects now ∷ os) = omega (
    arith,
    other_acts-fewer (collect_from H b.pending b now) os,
    collect_from-fewer b.pending b now,
  )

  -- At most 21 orders are in flight.
  abbrev pub IsBounded : Writer H × Going → Type 0
  IsBounded r = r.0.bot.in_flight ≤ suc max_in_flight

  put_order-IsBounded :
      (w : Writer H) (tag oid : String) (t : Turn)
      → w.bot.in_flight ≤ max_in_flight
      → IsBounded (put_order H w tag oid t)
  unfolding put_order send_order lose_connection
  put_order-IsBounded w tag oid t h = elim (Bool-cases t.written) [
    | inl e ↦ rw e (omega arith)
    | inr e ↦ rw e (omega arith)
  ]

  write_cancel-IsBounded :
      (w : Writer H) (t : Turn) (o : Option String)
      → w.bot.in_flight ≤ suc max_in_flight
      → IsBounded (write_cancel H w t o)
  unfolding write_cancel lose_connection
  write_cancel-IsBounded w t none h = h
  write_cancel-IsBounded w t (some id) h = elim (Bool-cases t.written) [
    | inl e ↦ rw e h
    | inr e ↦ rw e h
  ]

  write_template-IsBounded :
      (bot_id : ℕ) (w : Writer H) (tmpl : Template) (t : Turn)
      → w.bot.in_flight ≤ suc max_in_flight
      → IsBounded (write_template H bot_id w tmpl t)
  unfolding write_template
  write_template-IsBounded bot_id w tmpl t h =
      let now : Writer H = record w { bot = other_acts H w.bot t.others } in
      let fewer : now.bot.in_flight ≤ suc max_in_flight =
        omega (arith, other_acts-fewer w.bot t.others) in
      elim (Bool-cases tmpl.is_cancel) [
        | inl cancel ↦ rw cancel (write_cancel-IsBounded now t _ fewer)
        | inr order ↦ rw order (elim (Bool-cases (ltb max_in_flight now.bot.in_flight)) [
          | inl full ↦ rw full fewer
          | inr free ↦ rw free (put_order-IsBounded now tmpl.tag _ t (ground arith))
        ])
      ]

  go_on-IsBounded :
      (r : Writer H × Going) (f : Writer H → Writer H × Going)
      → IsBounded r
      → ((w : Writer H) → w.bot.in_flight ≤ suc max_in_flight → IsBounded (f w))
      → IsBounded (go_on H r f)
  go_on-IsBounded (w, on) f h k = k w h
  go_on-IsBounded (w, broken) f h k = h
  go_on-IsBounded (w, waiting) f h k = h

  write_templates-IsBounded :
      (bot_id : ℕ) (w : Writer H) (tmpls : List Template) (ts : List Turn)
      → w.bot.in_flight ≤ suc max_in_flight
      → IsBounded (write_templates H bot_id w tmpls ts)
  unfolding write_templates
  write_templates-IsBounded bot_id w [] ts h = h
  write_templates-IsBounded bot_id w (tmpl ∷ tmpls) [] h = h
  write_templates-IsBounded bot_id w (tmpl ∷ tmpls) (t ∷ ts) h =
      go_on-IsBounded (write_template H bot_id w tmpl t) _
        (write_template-IsBounded bot_id w tmpl t h)
        (λ w' k. write_templates-IsBounded bot_id w' tmpls ts k)

  -- From at most 21 orders in flight, and whatever the server answers and the collector drops in between,
  -- the writer never has more than 21 orders in flight, over any number of iterations.
  pub write_loop-IsBounded :
      (bot_id : ℕ) (tmpls : List Template) (w : Writer H) (tss : List (List Turn))
      → w.bot.in_flight ≤ suc max_in_flight
      → IsBounded (write_loop H bot_id tmpls w tss)
  unfolding write_loop
  write_loop-IsBounded bot_id tmpls w [] h = h
  write_loop-IsBounded bot_id tmpls w (ts ∷ tss) h =
      go_on-IsBounded (write_templates H bot_id w tmpls ts) _
        (write_templates-IsBounded bot_id w tmpls ts h)
        (λ w' k.
          write_loop-IsBounded bot_id tmpls (record w' { iteration = suc w'.iteration }) tss k)
