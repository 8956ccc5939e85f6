-- ===== src/BotOrchestrator/Job.antt =====
-- services/bot-orchestrator/main.go and orchestrator.go: the configuration, and the job that runTest
-- creates for the bot-runner.
use iicpc_sh.Prelude.{ℕ, ℤ, pos, List, [], ◌∷◌, some, String, str_append}
use iicpc_sh.Prelude.Decimal.{show_int}
use iicpc_sh.Prelude.Texts.{join_commas}
use iicpc_sh.Environment.{Environment, env_str, env_int, brokers_of}
use iicpc_sh.Kubernetes.{Container, bare_container}
use iicpc_sh.BotOrchestrator.Test.{job_name}
use iicpc_sh.BotOrchestrator.Server.{SandboxReadyEvent}

pub record Config : Type 0 where
  pub num_bots : ℤ
  pub duration_seconds : ℤ
  pub job_timeout_sec : ℤ
  pub warmup_seconds : ℤ
  pub redpanda_brokers : String
  pub bot_runner_image : String
  pub sandbox_namespace : String

-- The configuration that run reads.
unfoldable pub config_of : Environment → Config
config_of getenv = record {
  num_bots = env_int getenv "NUM_BOTS" (pos 50);
  duration_seconds = env_int getenv "DURATION_SECONDS" (pos 60);
  job_timeout_sec = env_int getenv "JOB_TIMEOUT_SECONDS" (pos 120);
  warmup_seconds = env_int getenv "WARMUP_SECONDS" (pos 15);
  redpanda_brokers =
      join_commas
        (brokers_of (env_str getenv "REDPANDA_BROKERS" "redpanda.platform.svc.cluster.local:9092"));
  bot_runner_image = env_str getenv "BOT_RUNNER_IMAGE" "bot-runner:dev";
  sandbox_namespace = env_str getenv "SANDBOX_NAMESPACE" "sandboxes";
}

abbrev pub target_endpoint : SandboxReadyEvent → String
target_endpoint e =
    str_append "ws://"
      (str_append e.pod_ip (str_append ":" (str_append (show_int e.ws_port) "/stream")))

abbrev pub job_env : Config → SandboxReadyEvent → List (String × String)
job_env cfg e =
    ("TARGET_ENDPOINT", target_endpoint e)
    ∷ ("NUM_BOTS", show_int cfg.num_bots)
    ∷ ("DURATION_SECONDS", show_int cfg.duration_seconds)
    ∷ ("TEAM_NAME", e.team_name)
    ∷ ("TEST_RUN_ID", e.submission_id)
    ∷ ("REDPANDA_BROKERS", cfg.redpanda_brokers)
    ∷ []

-- A job whose pods have the RestartPolicy Never.
pub record Job : Type 0 where
  pub name : String
  pub namespace : String
  pub ttl_seconds_after_finished : ℕ
  pub backoff_limit : ℕ
  pub completions : ℕ
  pub parallelism : ℕ
  pub labels : List (String × String)
  pub containers : List Container

-- The job of runTest, before the call that creates it.
unfoldable pub job_spec : Config → SandboxReadyEvent → Job
job_spec cfg e = record {
  name = job_name e.submission_id;
  namespace = "bots";
  ttl_seconds_after_finished = 300;
  backoff_limit = 0;
  completions = 1;
  parallelism = 1;
  labels = ("app.kubernetes.io/name", "bot-runner") ∷ [];
  containers =
      record (bare_container "bot-runner" cfg.bot_runner_image []) {
        env = job_env cfg e;
        resources = some (record { limits = ("2", "1Gi"); requests = ("100m", "512Mi") });
      }
      ∷ [];
}
