-- ===== src/Ingester.antt =====
-- services/telemetry-ingester/ingester.go: the buffer of events and its flushes.
--
-- The events, their scores and the database are arguments: `Outcome` says how each Exec of a batch
-- ends and whether the context of a flush is done when it waits to try again. One goroutine flushes,
-- and a flush takes the whole buffer under the mutex before it writes, so a Handle that comes during
-- a flush acts as one that comes after it. The leaderboard of Handle is in Leaderboard; the sleep is left
-- out.
pub mod Conserved
pub mod Score
pub mod Leaderboard
pub mod Connect
pub mod Consumer
mod Tests
use iicpc_sh.Prelude.{
  ℕ, zero, suc, ◌+◌, ◌*◌, Bool, true, false, not, ◌&&◌, List, [], ◌∷◌, ◌++◌, ltb, ◌==◌,
  if◌then◌else◌, length,
}

-- Exec number `j` of attempt number `a` succeeds; the context is done before attempt `a`.
pub record Outcome : Type 0 where
  pub exec : ℕ → ℕ → Bool
  pub is_done : ℕ → Bool

-- The errors of the last `n` calls of Exec of an attempt, from call `j` on.
unfoldable pub exec_errors : Outcome → ℕ → ℕ → ℕ → ℕ
exec_errors o a j zero = 0
exec_errors o a j (suc n) = (if o.exec a j then 0 else 1) + exec_errors o a (suc j) n

-- (*Ingester).writeBatch: two statements for each event, and an error if one of them fails.
unfoldable pub write_batch : Outcome → ℕ → ℕ → Bool
write_batch o a events = exec_errors o a 0 (events * 2) == 0

-- The loop of flush over its attempts, from attempt `a` on: whether the batch was written.
unfoldable pub attempts : Outcome → ℕ → ℕ → ℕ → Bool
attempts o events a zero = false
attempts o events a (suc left) =
    let again = attempts o events (suc a) left in
    let tried : Bool = if write_batch o a events then true else again in
    if ltb 0 a && o.is_done a then false else tried

abbrev pub max_attempts : ℕ
max_attempts = 3

module _ {E : Type 0} {S : Type 0} (compute_score : E → S) where
  -- `eventBuffer`, and the batches that were taken from it, each with whether it was written.
  pub record Ingester : Type 0 where
    pub event_buffer : List (E × S)
    pub flushed : List (List (E × S) × Bool)

  abbrev pub new_ingester : Ingester
  new_ingester = record { event_buffer = []; flushed = [] }

  -- (*Ingester).Handle
  unfoldable pub handle : Ingester → E → Ingester
  handle i e = record i { event_buffer = i.event_buffer ++ ((e, compute_score e) ∷ []) }

  -- (*Ingester).flush
  unfoldable pub flush : Ingester → Outcome → Ingester
  flush i o =
      let batch = i.event_buffer in
      let taken : Ingester = record {
        event_buffer = [];
        flushed = i.flushed ++ ((batch, attempts o (length batch) 0 max_attempts) ∷ []);
      } in
      if length batch == 0 then i else taken

  -- (*Ingester).Close: flushLoop flushes once more and ends. `o` is under the context of the lifecycle.
  unfoldable pub close : Ingester → Outcome → Ingester
  close i o = flush i o

  -- An event arrives, or the ticker or Close makes flushLoop flush.
  pub data Action : Type 0 where
    arrives : E → Action
    flushes : Outcome → Action

  unfoldable pub act : Ingester → Action → Ingester
  act i (arrives e) = handle i e
  act i (flushes o) = flush i o

  unfoldable pub act_all : Ingester → List Action → Ingester
  act_all i [] = i
  act_all i (a ∷ rest) = act_all (act i a) rest
