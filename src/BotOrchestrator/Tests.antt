-- ===== src/BotOrchestrator/Tests.antt =====
-- Tests of submissions on concrete inputs.
use iicpc_sh.Prelude.{pos, refl, ◌≤◌, true, false, some, List, [], ◌∷◌}
use iicpc_sh.BotOrchestrator.Server as S
use iicpc_sh.BotOrchestrator.Test.{World, SandboxReadyEvent, modified, other_event, handle}
use iicpc_sh.BotOrchestrator.Test.Ends.{IsWilling, Ends, before, carry_out_all, handle-Ends}

abbrev ready : S.SandboxReadyEvent
ready = record { submission_id = "42"; pod_ip = "10.0.0.7"; ws_port = pos 8080; team_name = "team" }

-- The same submission is started by the broker, by a request and again after its test.
abbrev events : List S.Event
events =
    S.sandbox_ready ready
    ∷ S.requested true (some ready)
    ∷ S.finished 0
    ∷ S.requested true (some ready)
    ∷ []

steps-exclusive_example : S.count "42" (S.steps S.new_server events).running ≤ 1
steps-exclusive_example = (S.steps-exclusive events "42").0

abbrev world : World
world = record {
  job_created = true;
  cancelled_in_warmup = false;
  watcher = some (modified 0 0 ∷ other_event ∷ modified 1 0 ∷ []);
  cancelled_in_watch = false;
  job_deleted = true;
  pod_deleted = true;
  complete_published = true;
}

abbrev event : SandboxReadyEvent
event = record { submission_id = "42"; pod_name = "sandbox-42"; team_name = "team" }

willing : IsWilling world
willing = record { job_deleted = refl; pod_deleted = refl; complete_published = refl }

handle-Ends_example : Ends world event (carry_out_all before (handle world event))
handle-Ends_example = handle-Ends world event willing
