-- ===== src/BotRunner/Main.antt =====
-- services/bot-runner/main.go: the settings, the sequences of the bots and the wait for a quorum.
pub mod FromJob
mod Tests
use iicpc_sh.Prelude.{
  ℕ, zero, suc, ◌+◌, ◌*◌, ◌/◌, ◌%◌, ℤ, pos, Bool, List, [], ◌∷◌, String, leb, if◌then◌else◌, length,
  get_or,
}
use iicpc_sh.Environment.{Environment, env_str, env_int, brokers_of}
use iicpc_sh.BotRunner.Sequence.{Sequence, sequences}

pub record Settings : Type 0 where
  pub endpoint : String
  pub num_bots : ℤ
  pub duration_sec : ℤ
  pub team_name : String
  pub submission_id : String
  pub topic : String
  pub brokers : List String

-- The settings that run reads.
unfoldable pub settings : Environment → Settings
settings getenv = record {
  endpoint = env_str getenv "TARGET_ENDPOINT" "ws://localhost:8080/stream";
  num_bots = env_int getenv "NUM_BOTS" (pos 10);
  duration_sec = env_int getenv "DURATION_SECONDS" (pos 30);
  team_name = env_str getenv "TEAM_NAME" "unknown";
  submission_id = env_str getenv "TEST_RUN_ID" "";
  topic = env_str getenv "KAFKA_TOPIC" "bot.metrics";
  brokers = brokers_of (env_str getenv "REDPANDA_BROKERS" "");
}

-- `seqs[i%len(seqs)]`
unfoldable pub sequence_of : ℕ → Sequence
sequence_of i = get_or (sequences i) (i % 3) (record { name = ""; steps = [] })

-- `int(float64(numBots) * 0.8)`: the float64 product is not below the exact one by enough to cross a
-- whole number.
abbrev pub quorum : ℕ → ℕ
quorum num_bots = num_bots * 4 / 5

-- What the select of the warm-up meets: a bot that is ready, the timeout, or the end of the test.
pub data Signal : Type 0 where
  ready timed_out ended : Signal

-- The warm-up's loop with `left` rounds to go, and its readyCount in the end. It waits on when no
-- signal comes, so the signals are all those that come.
unfoldable pub warm_up : ℕ → ℕ → ℕ → List Signal → ℕ
warm_up wanted zero count signals = count
warm_up wanted (suc left) count [] = count
warm_up wanted (suc left) count (timed_out ∷ signals) = count
warm_up wanted (suc left) count (ended ∷ signals) = count
warm_up wanted (suc left) count (ready ∷ signals) =
    let more = warm_up wanted left (count + 1) signals in
    if leb wanted (count + 1) then count + 1 else more
