-- ===== src/BotRunner/Main/Tests.antt =====
-- The load bots' settings, ids and writer on concrete inputs.
use iicpc_sh.Prelude.{refl, ◌≡◌, true, false, List, [], ◌∷◌, pos, if◌then◌else◌, str_eq}
use iicpc_sh.Prelude.Assoc.{lookup}
use iicpc_sh.Prelude.Texts.{split_commas, join_commas, is_space, trim_left, trim_right, trim_space}
use iicpc_sh.Prelude.Decimal.{
  digit, show_loop, show_nat, show_int, read_digits, in_range, read_unsigned, atoi,
}
use iicpc_sh.Environment.{env_str, env_int, keep_brokers, Environment, brokers_of}
use iicpc_sh.BotOrchestrator.Server.{SandboxReadyEvent}
use iicpc_sh.BotOrchestrator.Job.{config_of, target_endpoint, job_env}
use iicpc_sh.BotRunner.Main.{settings}
use iicpc_sh.BotRunner.Main.FromJob.{
  environment, as_written, ArePlain, has_dollar, raw_brokers, settings-job_env,
}
use iicpc_sh.BotRunner.Bot.Writer.{Turn, receives, new_writer, templates_of, write_loop}
use iicpc_sh.BotRunner.Bot.Writer.Balanced.{IsPaced, write_loop-IsPaced}
use iicpc_sh.BotRunner.Main.{sequence_of}
use iicpc_sh.BotRunner.Bot.Counters.{tally}

-- An orchestrator with 7 bots and two brokers, of which one is written with blanks.
abbrev orchestrator : Environment
orchestrator =
    environment as_written (("NUM_BOTS", "7") ∷ ("REDPANDA_BROKERS", "one:9092, two:9092") ∷ [])

abbrev event : SandboxReadyEvent
event = record { submission_id = "42"; pod_ip = "10.0.0.7"; ws_port = pos 8080; team_name = "" }

event-ArePlain : ArePlain (job_env (config_of orchestrator) event)
unfolding has_dollar config_of env_str env_int brokers_of keep_brokers lookup split_commas
    join_commas is_space trim_left trim_right trim_space digit show_loop show_nat show_int
    read_digits in_range read_unsigned atoi
event-ArePlain = (refl, (refl, (refl, (refl, (refl, (refl, tt))))))

settings-job_env_example :
    settings (environment as_written (job_env (config_of orchestrator) event)) ≡ record {
      endpoint = target_endpoint event;
      num_bots = (config_of orchestrator).num_bots;
      duration_sec = (config_of orchestrator).duration_seconds;
      team_name = if str_eq event.team_name "" then "unknown" else event.team_name;
      submission_id = event.submission_id;
      topic = "bot.metrics";
      brokers = brokers_of (raw_brokers orchestrator);
    }
settings-job_env_example =
    settings-job_env as_written orchestrator event (record { plain = λ env s h. refl })
      event-ArePlain

-- Bot 3 sends a bid and an ask; the fill of the ask arrives, and the bid of the second iteration is lost.
abbrev turns : List (List Turn)
turns =
    (record { others = []; time = 5; written = true }
      ∷ record { others = []; time = 10; written = true }
      ∷ [])
    ∷ (record {
      others =
          receives (record { type = "fill"; order_id = "b3-i0-ask1"; remaining = pos 0 }) 19 ∷ [];
      time = 20;
      written = false;
    }
        ∷ [])
    ∷ []

write_loop-IsPaced_example :
    IsPaced tally (write_loop tally 3 (templates_of (sequence_of 3)) (new_writer tally) turns).0.bot
write_loop-IsPaced_example = write_loop-IsPaced tally 3 turns
