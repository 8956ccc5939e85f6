-- ===== src/BotRunner/Bot/Writer/Balanced.antt =====
-- The ids of the writer's orders are fresh, so inFlight is the number of pending orders.
use iicpc_sh.Prelude.{
  subst, ◌≤◌, length, ◌%◌, ℕ, suc, ◌<◌, ◌≡◌, ◌≢◌, refl, ap, sym, arith, inl, inr, Option, none,
  some, List, [], ◌∷◌, String, ltb, Bool-cases, All,
}
use iicpc_sh.Prelude.Assoc.{IsMap, lookup, insert}
use iicpc_sh.BotRunner.Bot.{Histogram, Bot, send_order, lose_connection, act, sends as send_act}
use iicpc_sh.BotRunner.Bot.Flight.{IsBalanced, act-IsBalanced}
use iicpc_sh.BotRunner.Bot.OrderId.{order_id, order_id_inj}
use iicpc_sh.BotRunner.Main.{sequence_of}
use iicpc_sh.BotRunner.Bot.Writer.Bounded.{write_loop-IsBounded}
use iicpc_sh.BotRunner.Bot.Writer.{
  Template, Other, Turn, Going, on, broken, waiting, Writer, other_acts, put_order, write_cancel,
  write_template, go_on, write_templates, write_loop, max_in_flight, new_writer, templates_of,
}
use iicpc_sh.BotRunner.Bot.Writer.Tags.{
  order_tags, order_tags_cancel, order_tags_order, AreDistinct, sequence_at-AreDistinct,
  tail-AreDistinct,
}
use iicpc_sh.BotRunner.Bot.Writer.Answers.{insert-none, other_acts-none, other_acts-IsBalanced}

module _ (H : Histogram) where
  module _ (bot_id : ℕ) where
    -- In iteration n, the orders with the tags to come and those of later iterations are not pending.
    record IsUnsent (n : ℕ) (tags : List String) (m : List (String × ℕ)) : Type 0 where
      now : All (λ tag. lookup (order_id bot_id n tag) m ≡ none) tags
      later : (i : ℕ) (tag : String) → n < i → lookup (order_id bot_id i tag) m ≡ none

    -- inFlight is right, and the writer's iteration and what it has yet to send.
    record IsReady (n : ℕ) (tags : List String) (w : Writer H) : Type 0 where
      balanced : IsBalanced H w.bot
      iteration : w.iteration ≡ n
      unsent : IsUnsent n tags w.bot.pending

    all_unsent :
        (n : ℕ) (m m' : List (String × ℕ)) (tags : List String)
        → ((k : String) → lookup k m ≡ none → lookup k m' ≡ none)
        → All (λ tag. lookup (order_id bot_id n tag) m ≡ none) tags
        → All (λ tag. lookup (order_id bot_id n tag) m' ≡ none) tags
    all_unsent n m m' [] f h = tt
    all_unsent n m m' (t ∷ ts) f (h, hs) = (f _ h, all_unsent n m m' ts f hs)

    others-IsReady :
        (n : ℕ) (tags : List String) (w : Writer H) (os : List Other)
        → IsReady n tags w
        → IsReady n tags (record w { bot = other_acts H w.bot os })
    others-IsReady n tags w os h = record {
      balanced = other_acts-IsBalanced H w.bot os h.balanced;
      iteration = h.iteration;
      unsent = record {
        now = all_unsent n _ _ tags (λ k e. other_acts-none H k w.bot os e) h.unsent.now;
        later = λ i tag l. other_acts-none H _ w.bot os (h.unsent.later i tag l);
      };
    }

    fewer_tags :
        (n : ℕ) (t : String) (tags : List String) (w : Writer H)
        → IsReady n (t ∷ tags) w
        → IsReady n tags w
    fewer_tags n t tags w h = record {
      balanced = h.balanced;
      iteration = h.iteration;
      unsent = record { now = h.unsent.now.1; later = h.unsent.later };
    }

    other_tags :
        (n now : ℕ) (t : String) (m : List (String × ℕ)) (tags : List String)
        → All (λ u. t ≢ u) tags
        → All (λ tag. lookup (order_id bot_id n tag) m ≡ none) tags
        → All
            (λ tag. lookup (order_id bot_id n tag) (insert (order_id bot_id n t) now m) ≡ none)
            tags
    other_tags n now t m [] d h = tt
    other_tags n now t m (u ∷ us) (ne, d) (h, hs) = (
      insert-none _ _ now m (λ e. ne (order_id_inj bot_id bot_id n n t u e).2) h,
      other_tags n now t m us d hs,
    )

    sent-IsReady :
        (n now : ℕ) (t : String) (tags : List String) (w : Writer H) (ids : List (String × String))
        → All (λ u. t ≢ u) tags
        → IsReady n (t ∷ tags) w
        → IsReady n tags
            (record w { bot = send_order H w.bot (order_id bot_id n t) now; tags = ids })
    unfolding send_order insert act
    sent-IsReady n now t tags w ids d h = record {
      balanced =
          let b =
            act-IsBalanced H w.bot (send_act (order_id bot_id n t) now) h.unsent.now.0 h.balanced in
          record { is_map = b.is_map; counted = b.counted };
      iteration = h.iteration;
      unsent = record {
        now = other_tags n now t w.bot.pending tags d h.unsent.now.1;
        later = λ i tag l.
            insert-none _ _ now w.bot.pending
              (λ e. let same = (order_id_inj bot_id bot_id n i t tag e).1 in omega arith)
              (h.unsent.later i tag l);
      };
    }

    lost-IsReady :
        (n : ℕ) (tags : List String) (w : Writer H)
        → IsReady n tags w
        → IsReady n tags (record w { bot = lose_connection H w.bot })
    unfolding lose_connection
    lost-IsReady n tags w h = record {
      balanced = record { is_map = h.balanced.is_map; counted = h.balanced.counted };
      iteration = h.iteration;
      unsent = h.unsent;
    }

    put_order-IsReady :
        (n : ℕ) (tag : String) (tags : List String) (w : Writer H) (t : Turn)
        → All (λ u. tag ≢ u) tags
        → IsReady n (tag ∷ tags) w
        → IsReady n tags (put_order H w tag (order_id bot_id n tag) t).0
    unfolding put_order
    put_order-IsReady n tag tags w t d h =
        let sent = sent-IsReady n t.time tag tags w _ d h in
        elim (Bool-cases t.written) [
          | inl e ↦ rw e sent
          | inr e ↦ rw e (lost-IsReady n tags _ sent)
        ]

    write_cancel-IsReady :
        (n : ℕ) (tags : List String) (w : Writer H) (t : Turn) (o : Option String)
        → IsReady n tags w
        → IsReady n tags (write_cancel H w t o).0
    unfolding write_cancel
    write_cancel-IsReady n tags w t none h = h
    write_cancel-IsReady n tags w t (some id) h = elim (Bool-cases t.written) [
      | inl e ↦ rw e h
      | inr e ↦ rw e (lost-IsReady n tags w h)
    ]

    write_template-IsReady :
        (n : ℕ) (w : Writer H) (tmpl : Template) (tmpls : List Template) (t : Turn)
        → AreDistinct (order_tags (tmpl ∷ tmpls))
        → IsReady n (order_tags (tmpl ∷ tmpls)) w
        → IsReady n (order_tags tmpls) (write_template H bot_id w tmpl t).0
    unfolding write_template AreDistinct
    write_template-IsReady n w tmpl tmpls t d h =
        let now : Writer H = record w { bot = other_acts H w.bot t.others } in
        let ready = others-IsReady n (order_tags (tmpl ∷ tmpls)) w t.others h in
        elim (Bool-cases tmpl.is_cancel) [
          | inl cancel ↦
              let same = order_tags_cancel tmpl tmpls cancel in
              rw cancel (
                write_cancel-IsReady n (order_tags tmpls) now t _
                  (subst (λ tags. IsReady n tags now) same ready))
          | inr order ↦
              let one = order_tags_order tmpl tmpls order in
              let distinct = subst AreDistinct one d in
              let first = subst (λ tags. IsReady n tags now) one ready in
              rw order (elim (Bool-cases (ltb max_in_flight now.bot.in_flight)) [
                | inl full ↦ rw full (
                    let r = fewer_tags n tmpl.tag (order_tags tmpls) now first in
                    record { balanced = r.balanced; iteration = r.iteration; unsent = r.unsent })
                | inr free ↦ rw free (
                    subst
                      (λ i.
                        IsReady n (order_tags tmpls)
                          (put_order H now tmpl.tag (order_id bot_id i tmpl.tag) t).0)
                      (sym h.iteration)
                      (put_order-IsReady n tmpl.tag (order_tags tmpls) now t distinct.0 first))
              ])
        ]

    no_tags : (n : ℕ) (tags : List String) (w : Writer H) → IsReady n tags w → IsReady n [] w
    no_tags n tags w h = record {
      balanced = h.balanced;
      iteration = h.iteration;
      unsent = record { now = tt; later = h.unsent.later };
    }

    go_on-IsReady :
        (n : ℕ) (tags : List String) (r : Writer H × Going) (f : Writer H → Writer H × Going)
        → IsReady n tags r.0
        → ((w : Writer H) → IsReady n tags w → IsBalanced H (f w).0.bot)
        → IsBalanced H (go_on H r f).0.bot
    go_on-IsReady n tags (w, on) f h k = k w h
    go_on-IsReady n tags (w, broken) f h k = h.balanced
    go_on-IsReady n tags (w, waiting) f h k = h.balanced

    go_on-again :
        (n : ℕ) (tags : List String) (r : Writer H × Going) (f : Writer H → Writer H × Going)
        → IsReady n tags r.0
        → ((w : Writer H) → IsReady n tags w → IsReady n [] (f w).0)
        → IsReady n [] (go_on H r f).0
    go_on-again n tags (w, on) f h k = k w h
    go_on-again n tags (w, broken) f h k = no_tags n tags w h
    go_on-again n tags (w, waiting) f h k = no_tags n tags w h

    write_templates-IsReady :
        (n : ℕ) (w : Writer H) (tmpls : List Template) (ts : List Turn)
        → AreDistinct (order_tags tmpls)
        → IsReady n (order_tags tmpls) w
        → IsReady n [] (write_templates H bot_id w tmpls ts).0
    unfolding write_templates
    write_templates-IsReady n w [] ts d h = no_tags n _ w h
    write_templates-IsReady n w (tmpl ∷ tmpls) [] d h = no_tags n _ w h
    write_templates-IsReady n w (tmpl ∷ tmpls) (t ∷ ts) d h =
        go_on-again n (order_tags tmpls) (write_template H bot_id w tmpl t) _
          (write_template-IsReady n w tmpl tmpls t d h)
          (λ w' k. write_templates-IsReady n w' tmpls ts (tail-AreDistinct tmpl tmpls d) k)

    later_now :
        (n : ℕ) (tags : List String) (m : List (String × ℕ))
        → ((i : ℕ) (tag : String) → n < i → lookup (order_id bot_id i tag) m ≡ none)
        → All (λ tag. lookup (order_id bot_id (suc n) tag) m ≡ none) tags
    later_now n [] m h = tt
    later_now n (t ∷ ts) m h = (h (suc n) t (omega arith), later_now n ts m h)

    next-IsReady :
        (n : ℕ) (tags : List String) (w : Writer H)
        → IsReady n [] w
        → IsReady (suc n) tags (record w { iteration = suc w.iteration })
    next-IsReady n tags w h = record {
      balanced = h.balanced;
      iteration = ap suc h.iteration;
      unsent = record {
        now = later_now n tags w.bot.pending h.unsent.later;
        later = λ i tag l. h.unsent.later i tag (omega arith);
      };
    }

    write_loop-IsReady :
        (n : ℕ) (tmpls : List Template) (w : Writer H) (tss : List (List Turn))
        → AreDistinct (order_tags tmpls)
        → IsReady n (order_tags tmpls) w
        → IsBalanced H (write_loop H bot_id tmpls w tss).0.bot
    unfolding write_loop
    write_loop-IsReady n tmpls w [] d h = h.balanced
    write_loop-IsReady n tmpls w (ts ∷ tss) d h =
        go_on-IsReady n [] (write_templates H bot_id w tmpls ts) _
          (write_templates-IsReady n w tmpls ts d h)
          (λ w' k.
            write_loop-IsReady (suc n) tmpls (record w' { iteration = suc w'.iteration }) tss d
              (next-IsReady n (order_tags tmpls) w' k))

module _ (H : Histogram) where
  -- inFlight is the number of the pending orders, at most 21.
  pub record IsPaced (b : Bot H) : Type 0 where
    pub balanced : IsBalanced H b
    pub bounded : length b.pending ≤ suc max_in_flight

  new-IsReady : (i : ℕ) (tags : List String) → IsReady H i 0 tags (new_writer H)
  unfolding lookup IsMap
  new-IsReady i tags = record {
    balanced = record { is_map = tt; counted = refl };
    iteration = refl;
    unsent = record { now = none_yet tags; later = λ k tag l. refl };
  }
    where
      none_yet : (ts : List String) → All (λ tag. lookup {V = ℕ} (order_id i 0 tag) [] ≡ none) ts
      none_yet [] = tt
      none_yet (t ∷ ts) = (refl, none_yet ts)

  -- A load bot that has just started, with the sequence that run gives it, writes on one connection for
  -- any number of iterations. Whatever it hears and whatever the collector drops in between, inFlight is
  -- in the end the number of its pending orders, and that is at most 21.
  pub write_loop-IsPaced :
      (i : ℕ) (tss : List (List Turn))
      → IsPaced (write_loop H i (templates_of (sequence_of i)) (new_writer H) tss).0.bot
  unfolding sequence_of
  write_loop-IsPaced i tss =
      let tmpls = templates_of (sequence_of i) in
      let balanced =
        write_loop-IsReady H i 0 tmpls (new_writer H) tss (sequence_at-AreDistinct i (i % 3))
          (new-IsReady i (order_tags tmpls)) in
      let c = balanced.counted in
      let fewer = write_loop-IsBounded H i tmpls (new_writer H) tss (omega arith) in
      record { balanced = balanced; bounded = omega arith }
