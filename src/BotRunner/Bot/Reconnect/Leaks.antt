-- ===== src/BotRunner/Bot/Reconnect/Leaks.antt =====
-- How many orders a load bot leaks over its connections.
use iicpc_sh.Prelude.{
  ap, ◌+◌, ◌≤◌, length, ℕ, suc, ◌<◌, ◌≡◌, refl, arith, inl, inr, Bool, Option, none, some, List, [],
  ◌∷◌, ltb, true, false, String, Bool-cases, Option-cases,
}
use iicpc_sh.Prelude.Assoc.{lookup, IsMap}
use iicpc_sh.BotRunner.Bot.{
  Histogram, Bot, receive, collect, lose_connection, send_order, act, sends as send_act,
  receives as receive_act, collects as collect_act,
}
use iicpc_sh.BotRunner.Bot.Flight.{resend-IsLeaking, IsLeaking, act-IsLeaking}
use iicpc_sh.BotRunner.Bot.Writer.{
  Template, Other, receives, collects, Turn, Going, on, broken, waiting, Writer, other_act,
  new_writer, put_order, other_acts, write_cancel, write_template, go_on, write_templates,
  write_loop, max_in_flight,
}
use iicpc_sh.BotRunner.Bot.Reconnect.{
  run_bot-IsBounded, Dial, refused, dialed, read_error, again, run_bot,
}

module _ (H : Histogram) where
  -- inFlight is more than the number of pending orders by at most 20.
  pub record IsModest (b : Bot H) : Type 0 where
    pub leaked : ℕ
    pub few : leaked ≤ 20
    pub leaking : IsLeaking H leaked b

  other_acts-IsModest : (b : Bot H) (os : List Other) → IsModest b → IsModest (other_acts H b os)
  unfolding other_acts other_act act
  other_acts-IsModest b [] h = h
  other_acts-IsModest b (receives msg now ∷ os) h =
      other_acts-IsModest (receive H b msg now) os (record {
        leaked = h.leaked;
        few = h.few;
        leaking = act-IsLeaking H h.leaked b (receive_act msg now) tt h.leaking;
      })
  other_acts-IsModest b (collects now ∷ os) h = other_acts-IsModest (collect H b now) os (record {
    leaked = h.leaked;
    few = h.few;
    leaking = act-IsLeaking H h.leaked b (collect_act now) tt h.leaking;
  })

  lost-IsModest : (b : Bot H) → IsModest b → IsModest (lose_connection H b)
  unfolding lose_connection
  lost-IsModest b h = record {
    leaked = h.leaked;
    few = h.few;
    leaking = record { is_map = h.leaking.is_map; counted = h.leaking.counted };
  }

  some_pending : (k : String) (m : List (String × ℕ)) (v : ℕ) → lookup k m ≡ some v → 0 < length m
  unfolding lookup
  some_pending k [] v h = absurd (ground arith)
  some_pending k (x ∷ m) v h = omega arith

  -- A new order leaks nothing. One that is pending leaks one, and it is itself among the at most 20 that
  -- are in flight before it is sent, so at most 19 were leaked before.
  sent-IsModest :
      (b : Bot H) (oid : String) (now : ℕ)
      → b.in_flight ≤ max_in_flight
      → IsModest b
      → IsModest (send_order H b oid now)
  unfolding act
  sent-IsModest b oid now free h = elim (Option-cases (lookup oid b.pending)) [
    | inl new ↦ record {
      leaked = h.leaked;
      few = h.few;
      leaking = act-IsLeaking H h.leaked b (send_act oid now) new h.leaking;
    }
    | inr (v, old) ↦
        let counted = h.leaking.counted in
        let one = some_pending oid b.pending v old in
        record {
          leaked = suc h.leaked;
          few = omega arith;
          leaking = resend-IsLeaking H h.leaked b oid v now h.leaking old;
        }
  ]

  write_cancel-IsModest :
      (w : Writer H) (t : Turn) (o : Option String)
      → IsModest w.bot
      → IsModest (write_cancel H w t o).0.bot
  unfolding write_cancel
  write_cancel-IsModest w t none h = h
  write_cancel-IsModest w t (some id) h = elim (Bool-cases t.written) [
    | inl e ↦ rw e h
    | inr e ↦ rw e (lost-IsModest w.bot h)
  ]

  put_order-IsModest :
      (w : Writer H) (tag oid : String) (t : Turn)
      → w.bot.in_flight ≤ max_in_flight
      → IsModest w.bot
      → IsModest (put_order H w tag oid t).0.bot
  unfolding put_order
  put_order-IsModest w tag oid t free h =
      let sent = sent-IsModest w.bot oid t.time free h in
      elim (Bool-cases t.written) [
        | inl e ↦ rw e sent
        | inr e ↦ rw e (lost-IsModest (send_order H w.bot oid t.time) sent)
      ]

  write_template-IsModest :
      (bot_id : ℕ) (w : Writer H) (tmpl : Template) (t : Turn)
      → IsModest w.bot
      → IsModest (write_template H bot_id w tmpl t).0.bot
  unfolding write_template
  write_template-IsModest bot_id w tmpl t h =
      let now : Writer H = record w { bot = other_acts H w.bot t.others } in
      let modest = other_acts-IsModest w.bot t.others h in
      elim (Bool-cases tmpl.is_cancel) [
        | inl cancel ↦ rw cancel (write_cancel-IsModest now t _ modest)
        | inr order ↦ rw order (elim (Bool-cases (ltb max_in_flight now.bot.in_flight)) [
          | inl full ↦ rw full modest
          | inr free ↦ rw free (put_order-IsModest now tmpl.tag _ t (ground arith) modest)
        ])
      ]

  go_on-IsModest :
      (r : Writer H × Going) (f : Writer H → Writer H × Going)
      → IsModest r.0.bot
      → ((w : Writer H) → IsModest w.bot → IsModest (f w).0.bot)
      → IsModest (go_on H r f).0.bot
  go_on-IsModest (w, on) f h k = k w h
  go_on-IsModest (w, broken) f h k = h
  go_on-IsModest (w, waiting) f h k = h

  write_templates-IsModest :
      (bot_id : ℕ) (w : Writer H) (tmpls : List Template) (ts : List Turn)
      → IsModest w.bot
      → IsModest (write_templates H bot_id w tmpls ts).0.bot
  unfolding write_templates
  write_templates-IsModest bot_id w [] ts h = h
  write_templates-IsModest bot_id w (tmpl ∷ tmpls) [] h = h
  write_templates-IsModest bot_id w (tmpl ∷ tmpls) (t ∷ ts) h =
      go_on-IsModest (write_template H bot_id w tmpl t) _
        (write_template-IsModest bot_id w tmpl t h)
        (λ w' k. write_templates-IsModest bot_id w' tmpls ts k)

  write_loop-IsModest :
      (bot_id : ℕ) (tmpls : List Template) (w : Writer H) (tss : List (List Turn))
      → IsModest w.bot
      → IsModest (write_loop H bot_id tmpls w tss).0.bot
  unfolding write_loop
  write_loop-IsModest bot_id tmpls w [] h = h
  write_loop-IsModest bot_id tmpls w (ts ∷ tss) h =
      go_on-IsModest (write_templates H bot_id w tmpls ts) _
        (write_templates-IsModest bot_id w tmpls ts h)
        (λ w' k.
          write_loop-IsModest bot_id tmpls (record w' { iteration = suc w'.iteration }) tss k)

  read_error-IsModest :
      (r : Writer H × Going) (failed : Bool)
      → IsModest r.0.bot
      → IsModest (read_error H r failed).0.bot
  unfolding read_error
  read_error-IsModest (w, on) true h = lost-IsModest w.bot h
  read_error-IsModest (w, on) false h = h
  read_error-IsModest (w, broken) failed h = h
  read_error-IsModest (w, waiting) failed h = h

  again-IsModest :
      (r : Writer H × Going) (f : Writer H → Writer H × Going)
      → IsModest r.0.bot
      → ((w : Writer H) → IsModest w.bot → IsModest (f w).0.bot)
      → IsModest (again H r f).0.bot
  again-IsModest (w, on) f h k = h
  again-IsModest (w, broken) f h k = k w h
  again-IsModest (w, waiting) f h k = h

  run_bot-IsModest :
      (bot_id : ℕ) (tmpls : List Template) (w : Writer H) (ds : List Dial)
      → IsModest w.bot
      → IsModest (run_bot H bot_id tmpls w ds).0.bot
  unfolding run_bot
  run_bot-IsModest bot_id tmpls w [] h = h
  run_bot-IsModest bot_id tmpls w (refused ∷ ds) h = run_bot-IsModest bot_id tmpls w ds h
  run_bot-IsModest bot_id tmpls w (dialed tss failed ∷ ds) h =
      again-IsModest (read_error H (write_loop H bot_id tmpls w tss) failed) _
        (read_error-IsModest (write_loop H bot_id tmpls w tss) failed
          (write_loop-IsModest bot_id tmpls w tss h))
        (λ w' k. run_bot-IsModest bot_id tmpls w' ds k)

  new-IsModest : IsModest (new_writer H).bot
  unfolding IsMap
  new-IsModest = record {
    leaked = 0;
    few = omega arith;
    leaking = record { is_map = tt; counted = refl };
  }

  -- A load bot that has just started, on any templates, over any number of connections and whatever it
  -- hears on them: inFlight is at most 21, and it is more than the number of pending orders by at most 20.
  -- So a bot whose orders are all settled or collected can send again.
  pub run_bot-bounded :
      (bot_id : ℕ) (tmpls : List Template) (ds : List Dial)
      → let b = (run_bot H bot_id tmpls (new_writer H) ds).0.bot in
        (b.in_flight ≤ 21)
        × ((b.in_flight ≤ length b.pending + 20)
            × (b.pending ≡ [] → ltb max_in_flight b.in_flight ≡ false))
  run_bot-bounded bot_id tmpls ds =
      let b = (run_bot H bot_id tmpls (new_writer H) ds).0.bot in
      let h = run_bot-IsModest bot_id tmpls (new_writer H) ds new-IsModest in
      let few = h.few in
      let counted = h.leaking.counted in
      (
        run_bot-IsBounded H bot_id tmpls (new_writer H) ds (omega arith),
        (omega arith, λ e. let z = ap length e in ground arith),
      )
