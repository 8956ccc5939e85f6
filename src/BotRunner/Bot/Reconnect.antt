-- ===== src/BotRunner/Bot/Reconnect.antt =====
-- services/bot-runner/bot.go: the loop of Run over its connections.
--
-- A `Dial` is how a turn of the loop goes: the dial fails; or the writer runs on the connection, with the
-- turns of its iterations, and the reader may find the connection broken after them. A writer that is
-- not interrupted stops at the deadline, and so does the loop.
pub mod Leaks
use iicpc_sh.Prelude.{ℕ, suc, ◌≤◌, Bool, true, false, List, [], ◌∷◌}
use iicpc_sh.BotRunner.Bot.{Histogram, lose_connection}
use iicpc_sh.BotRunner.Bot.Writer.{
  Template, Turn, Going, on, broken, waiting, Writer, write_loop, max_in_flight,
}
use iicpc_sh.BotRunner.Bot.Writer.Bounded.{IsBounded, write_loop-IsBounded}

pub data Dial : Type 0 where
  refused : Dial
  dialed : List (List Turn) → Bool → Dial

module _ (H : Histogram) where
  -- The `select` on errCh, after the iterations.
  unfoldable pub read_error : Writer H × Going → Bool → Writer H × Going
  read_error (w, on) true = (record w { bot = lose_connection H w.bot }, broken)
  read_error (w, on) false = (w, on)
  read_error (w, broken) failed = (w, broken)
  read_error (w, waiting) failed = (w, waiting)

  abbrev pub again : Writer H × Going → (Writer H → Writer H × Going) → Writer H × Going
  again (w, on) f = (w, on)
  again (w, broken) f = f w
  again (w, waiting) f = (w, waiting)

  -- The outer loop of Run.
  unfoldable pub run_bot : ℕ → List Template → Writer H → List Dial → Writer H × Going
  run_bot bot_id tmpls w [] = (w, on)
  run_bot bot_id tmpls w (refused ∷ ds) = run_bot bot_id tmpls w ds
  run_bot bot_id tmpls w (dialed tss failed ∷ ds) =
      again (read_error (write_loop H bot_id tmpls w tss) failed) (λ w'. run_bot bot_id tmpls w' ds)

  read_error-IsBounded :
      (r : Writer H × Going) (failed : Bool) → IsBounded H r → IsBounded H (read_error r failed)
  unfolding read_error lose_connection
  read_error-IsBounded (w, on) true h = h
  read_error-IsBounded (w, on) false h = h
  read_error-IsBounded (w, broken) failed h = h
  read_error-IsBounded (w, waiting) failed h = h

  again-IsBounded :
      (r : Writer H × Going) (f : Writer H → Writer H × Going)
      → IsBounded H r
      → ((w : Writer H) → w.bot.in_flight ≤ suc max_in_flight → IsBounded H (f w))
      → IsBounded H (again r f)
  again-IsBounded (w, on) f h k = h
  again-IsBounded (w, broken) f h k = k w h
  again-IsBounded (w, waiting) f h k = h

  -- From at most 21 orders in flight, a load bot never has more than 21 orders in flight, over any number
  -- of connections and whatever it hears on them.
  pub run_bot-IsBounded :
      (bot_id : ℕ) (tmpls : List Template) (w : Writer H) (ds : List Dial)
      → w.bot.in_flight ≤ suc max_in_flight
      → IsBounded H (run_bot bot_id tmpls w ds)
  unfolding run_bot
  run_bot-IsBounded bot_id tmpls w [] h = h
  run_bot-IsBounded bot_id tmpls w (refused ∷ ds) h = run_bot-IsBounded bot_id tmpls w ds h
  run_bot-IsBounded bot_id tmpls w (dialed tss failed ∷ ds) h =
      again-IsBounded (read_error (write_loop H bot_id tmpls w tss) failed) _
        (read_error-IsBounded (write_loop H bot_id tmpls w tss) failed
          (write_loop-IsBounded H bot_id tmpls w tss h))
        (λ w' k. run_bot-IsBounded bot_id tmpls w' ds k)
