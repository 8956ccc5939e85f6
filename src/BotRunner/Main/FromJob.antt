-- ===== src/BotRunner/Main/FromJob.antt =====
-- The settings of a bot-runner that runs as the bot-orchestrator's job.
use text.Mathlib.TextPositions.{len-append}
use Prim.Native.String.{len}
use iicpc_sh.Prelude.{
  Bool, true, ◌==◌, [], ◌∷◌, All, fun_ext, ◌≡◌, refl, arith, ap, ◌∙◌, sym, pos, List, none, some,
  String, str_eq, str_eq_iff, if◌then◌else◌, false, Bool-cases, inl, inr, Option,
}
use iicpc_sh.Prelude.Assoc.{lookup}
use iicpc_sh.Prelude.Decimal.{in_range}
use iicpc_sh.Environment.{
  Environment, env_str, env_int, brokers_of, env_int-show_int, env_int-in_range,
  brokers_of-join_commas,
}
use iicpc_sh.BotOrchestrator.Server.{SandboxReadyEvent}
use iicpc_sh.BotOrchestrator.Job.{Config, config_of, target_endpoint, job_env}
use iicpc_sh.BotRunner.Main.{Settings, settings}
use Prim.Native.Char.{code}

-- How Kubernetes expands the references `$(NAME)` in a value of a container's list of variables.
abbrev pub Expansion : Type 0
Expansion = List (String × String) → String → String

-- The code of `$` does not occur.
unfoldable pub has_dollar : String → Bool
has_dollar String.[] = false
has_dollar (String.◌∷◌ c s) = let rest = has_dollar s in if code c == b'$' then true else rest

-- A value without a `$` has no reference and is left as it is.
pub record IsExpansion (expand : Expansion) : Type 0 where
  pub plain : (env : List (String × String)) (s : String) → has_dollar s ≡ false → expand env s ≡ s

abbrev or_unset : (String → String) → Option String → String
or_unset expand none = ""
or_unset expand (some v) = expand v

-- The environment of a container: the variables of its list, expanded.
abbrev pub environment : Expansion → List (String × String) → Environment
environment expand env key = or_unset (expand env) (lookup key env)

abbrev pub as_written : Expansion
as_written env s = s

-- No value has a `$`.
abbrev pub ArePlain : List (String × String) → Type 0
ArePlain env = All (λ v. has_dollar v.1 ≡ false) env

plain_lookup :
    (f : String → String) (env : List (String × String)) (key : String)
    → ((s : String) → has_dollar s ≡ false → f s ≡ s)
    → ArePlain env
    → or_unset f (lookup key env) ≡ or_unset (λ s. s) (lookup key env)
unfolding lookup
plain_lookup f [] key id h = refl
plain_lookup f ((k, v) ∷ env) key id h = elim (Bool-cases (str_eq k key)) [
  | inl here ↦ rw here (id v h.0)
  | inr other ↦ rw other (plain_lookup f env key id h.1)
]

plain-environment :
    (expand : Expansion) (env : List (String × String))
    → IsExpansion expand
    → ArePlain env
    → environment expand env ≡ environment as_written env
plain-environment expand env ok h =
    fun_ext (λ key. plain_lookup (expand env) env key (ok.plain env) h)

env_str-empty : (getenv : Environment) (key : String) → env_str getenv key "" ≡ getenv key
unfolding env_str
env_str-empty getenv key = elim (Bool-cases (str_eq (getenv key) "")) [
  | inl e ↦ rw e (sym ((str_eq_iff (getenv key) "").0 e))
  | inr e ↦ rw e refl
]

endpoint_set : (e : SandboxReadyEvent) → str_eq (target_endpoint e) "" ≡ false
endpoint_set e = elim (Bool-cases (str_eq (target_endpoint e) "")) [
  | inr ok ↦ ok
  | inl empty ↦
      let same = ap len ((str_eq_iff (target_endpoint e) "").0 empty) in
      absurd (omega (arith, len-append "ws://" _, same))
]

abbrev pub raw_brokers : Environment → String
raw_brokers orchestrator =
    env_str orchestrator "REDPANDA_BROKERS" "redpanda.platform.svc.cluster.local:9092"

-- The environment of the job, and what the bot-runner reads from it.
module _ (orchestrator : Environment) (e : SandboxReadyEvent) where
  abbrev cfg : Config
  cfg = config_of orchestrator

  abbrev job : Environment
  job = environment as_written (job_env cfg e)

  endpoint_read : env_str job "TARGET_ENDPOINT" "ws://localhost:8080/stream" ≡ target_endpoint e
  unfolding env_str lookup
  endpoint_read = rw (endpoint_set e) refl

  num_bots_read : env_int job "NUM_BOTS" (pos 10) ≡ cfg.num_bots
  unfolding lookup config_of
  num_bots_read =
      env_int-show_int job "NUM_BOTS" (pos 10) cfg.num_bots refl
        (env_int-in_range orchestrator "NUM_BOTS" (pos 50) (unfold in_range in refl))

  duration_read : env_int job "DURATION_SECONDS" (pos 30) ≡ cfg.duration_seconds
  unfolding lookup config_of
  duration_read =
      env_int-show_int job "DURATION_SECONDS" (pos 30) cfg.duration_seconds refl
        (env_int-in_range orchestrator "DURATION_SECONDS" (pos 60) (unfold in_range in refl))

  brokers_read :
      brokers_of (env_str job "REDPANDA_BROKERS" "") ≡ brokers_of (raw_brokers orchestrator)
  unfolding lookup config_of
  brokers_read =
      ap brokers_of (env_str-empty job "REDPANDA_BROKERS")
      ∙ brokers_of-join_commas (raw_brokers orchestrator)

  team_read :
      env_str job "TEAM_NAME" "unknown" ≡ (if str_eq e.team_name "" then "unknown" else e.team_name)
  unfolding env_str lookup
  team_read = refl

  submission_read : env_str job "TEST_RUN_ID" "" ≡ e.submission_id
  unfolding lookup
  submission_read = env_str-empty job "TEST_RUN_ID"

  topic_read : env_str job "KAFKA_TOPIC" "bot.metrics" ≡ "bot.metrics"
  unfolding env_str lookup
  topic_read = refl

-- What the bot-runner has read, if it reads back all that was meant.
abbrev pub meant : Environment → SandboxReadyEvent → Settings
meant orchestrator e = record {
  endpoint = target_endpoint e;
  num_bots = (config_of orchestrator).num_bots;
  duration_sec = (config_of orchestrator).duration_seconds;
  team_name = if str_eq e.team_name "" then "unknown" else e.team_name;
  submission_id = e.submission_id;
  topic = "bot.metrics";
  brokers = brokers_of (raw_brokers orchestrator);
}

written-meant :
    (orchestrator : Environment) (e : SandboxReadyEvent)
    → settings (environment as_written (job_env (config_of orchestrator) e)) ≡ meant orchestrator e
unfolding settings
written-meant orchestrator e = λ i. record {
  endpoint = endpoint_read orchestrator e i;
  num_bots = num_bots_read orchestrator e i;
  duration_sec = duration_read orchestrator e i;
  team_name = team_read orchestrator e i;
  submission_id = submission_read orchestrator e i;
  topic = topic_read orchestrator e i;
  brokers = brokers_read orchestrator e i;
}

-- A bot-runner that the bot-orchestrator starts reads back, for every environment of the orchestrator and
-- every event, if no value of the job's environment has a `$`, the orchestrator's own numbers and
-- brokers, the endpoint and the id of the event's sandbox, and its team, or `unknown` for an empty name.
pub settings-job_env :
    (expand : Expansion) (orchestrator : Environment) (e : SandboxReadyEvent)
    → IsExpansion expand
    → ArePlain (job_env (config_of orchestrator) e)
    → settings (environment expand (job_env (config_of orchestrator) e)) ≡ record {
      endpoint = target_endpoint e;
      num_bots = (config_of orchestrator).num_bots;
      duration_sec = (config_of orchestrator).duration_seconds;
      team_name = if str_eq e.team_name "" then "unknown" else e.team_name;
      submission_id = e.submission_id;
      topic = "bot.metrics";
      brokers = brokers_of (raw_brokers orchestrator);
    }
settings-job_env expand orchestrator e ok plain =
    ap settings (plain-environment expand (job_env (config_of orchestrator) e) ok plain)
    ∙ written-meant orchestrator e
