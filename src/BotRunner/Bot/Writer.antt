-- ===== src/BotRunner/Bot/Writer.antt =====
-- services/bot-runner/bot.go: the writer's loop over the templates of a sequence, on one connection.
--
-- A `Turn` is what the writer meets at a template: what the reader and the collector do before it goes
-- on, the time, and whether the write succeeds. A writer that still sees more than 20 orders in flight
-- waits, until the context ends if nothing more is received or collected.
pub mod Bounded
pub mod Tags
pub mod Answers
pub mod Balanced
use iicpc_sh.Prelude.{
  map, false, true, ℕ, suc, ◌+◌, Bool, Option, none, some, List, [], ◌∷◌, String, ltb,
  if◌then◌else◌,
}
use iicpc_sh.Prelude.Assoc.{lookup, insert}
use iicpc_sh.BotRunner.Bot.{
  Histogram, Bot, Reply, new_bot, receive, collect, send_order, lose_connection,
}
use iicpc_sh.BotRunner.Sequence.{Step, Sequence, step_order, step_cancel}
use iicpc_sh.BotRunner.Bot.OrderId.{order_id}

pub record Template : Type 0 where
  pub is_cancel : Bool
  pub tag : String
  pub cancel_tag : String

-- What the reader or the collector does.
pub data Other : Type 0 where
  receives : Reply → ℕ → Other
  collects : ℕ → Other

pub record Turn : Type 0 where
  pub others : List Other
  pub time : ℕ
  pub written : Bool

-- A step of the sequence as a template; its payload is what the step sends.
abbrev pub template_of : Step → Template
template_of s = elim s.kind [
  | step_order ↦ record { is_cancel = false; tag = s.tag; cancel_tag = "" }
  | step_cancel ↦ record { is_cancel = true; tag = ""; cancel_tag = s.cancel_tag }
]

-- The templates that Run makes of the steps of its sequence.
abbrev pub templates_of : Sequence → List Template
templates_of seq = map template_of seq.steps

abbrev pub max_in_flight : ℕ
max_in_flight = 20

-- How the writer leaves a template or an iteration: it goes on, it leaves the connection, or it waits.
pub data Going : Type 0 where
  on broken waiting : Going

module _ (H : Histogram) where
  -- The writer's variables beside the bot's: tagToID and the iteration.
  pub record Writer : Type 0 where
    pub bot : Bot H
    pub tags : List (String × String)
    pub iteration : ℕ

  -- The bot at the start of Run.
  abbrev pub new_writer : Writer
  new_writer = record { bot = new_bot H; tags = []; iteration = 0 }

  unfoldable pub other_act : Bot H → Other → Bot H
  other_act b (receives msg now) = receive H b msg now
  other_act b (collects now) = collect H b now

  unfoldable pub other_acts : Bot H → List Other → Bot H
  other_acts b [] = b
  other_acts b (o ∷ os) = other_acts (other_act b o) os

  -- The order of a template, once the writer no longer waits.
  unfoldable pub put_order : Writer → String → String → Turn → Writer × Going
  put_order w tag oid t =
      let sent : Writer = record w {
        bot = send_order H w.bot oid t.time;
        tags = insert tag oid w.tags;
      } in
      let lost : Writer = record sent { bot = lose_connection H sent.bot } in
      if t.written then (sent, on) else (lost, broken)

  unfoldable pub write_cancel : Writer → Turn → Option String → Writer × Going
  write_cancel w t none = (w, on)
  write_cancel w t (some id) =
      if t.written then (w, on) else (record w { bot = lose_connection H w.bot }, broken)

  -- The body of the loop over the templates, for a bot.
  unfoldable pub write_template : ℕ → Writer → Template → Turn → Writer × Going
  unfolding put_order write_cancel
  write_template bot_id w tmpl t =
      let now : Writer = record w { bot = other_acts w.bot t.others } in
      let oid = order_id bot_id w.iteration tmpl.tag in
      let tagged : Writer = record now { tags = insert tmpl.tag oid now.tags } in
      if tmpl.is_cancel
      then write_cancel now t (lookup tmpl.cancel_tag now.tags)
      else if ltb max_in_flight now.bot.in_flight
      then (tagged, waiting)
      else put_order now tmpl.tag oid t

  abbrev pub go_on : Writer × Going → (Writer → Writer × Going) → Writer × Going
  go_on (w, on) f = f w
  go_on (w, broken) f = (w, broken)
  go_on (w, waiting) f = (w, waiting)

  -- The loop over the templates; it waits where the turns end.
  unfoldable pub write_templates : ℕ → Writer → List Template → List Turn → Writer × Going
  write_templates bot_id w [] ts = (w, on)
  write_templates bot_id w (tmpl ∷ tmpls) [] = (w, waiting)
  write_templates bot_id w (tmpl ∷ tmpls) (t ∷ ts) =
      go_on (write_template bot_id w tmpl t) (λ w'. write_templates bot_id w' tmpls ts)

  -- The writer's loop, an iteration for each list of turns: the iteration is counted if it ends.
  unfoldable pub write_loop : ℕ → List Template → Writer → List (List Turn) → Writer × Going
  write_loop bot_id tmpls w [] = (w, on)
  write_loop bot_id tmpls w (ts ∷ tss) =
      go_on (write_templates bot_id w tmpls ts)
        (λ w'. write_loop bot_id tmpls (record w' { iteration = suc w'.iteration }) tss)
