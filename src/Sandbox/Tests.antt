-- ===== src/Sandbox/Tests.antt =====
-- Deployments on concrete inputs.
use iicpc_sh.Prelude.{ℕ, ◌≡◌, refl, true, false, some, List, [], ◌∷◌}
use iicpc_sh.Sandbox.{
  stopped, publish_result, World, BuildCompleteEvent, WaitError, deploy, pod_in, running, created,
  pod_name, handle_record, committed, valid_path, watch_loop, any_ready, after_creation,
  wait_for_pod_running, create_sandbox_pod, is_path_char, all_path_chars,
}
use iicpc_sh.Sandbox.Deployed.{redelivered, Deployment, deploy-Deployment, handle_record-lost}

abbrev message : WaitError → List ℕ
message err = 119 ∷ 97 ∷ []

abbrev event : BuildCompleteEvent
event = record {
  event = "build.complete";
  submission_id = "42";
  binary_path = "builds/42/binary";
  team_name = "team";
}

-- The pod is ready at its second event, and the broker refuses the message.
abbrev world : World
world = record {
  creation = created;
  watcher = some (
      pod_in running []
      ∷ pod_in running (record { is_ready_type = true; is_true = true } ∷ [])
      ∷ []);
  logs = [];
  address = some "10.0.0.7";
  failed_published = true;
  ready_published = false;
}

deploy-Deployment_example :
    Deployment message 8 world (pod_name "42") (deploy message 8 world event)
deploy-Deployment_example = deploy-Deployment message 8 world event

event-stops : (handle_record message 8 world (some event)).0 ≡ stopped
unfolding handle_record publish_result deploy create_sandbox_pod valid_path all_path_chars
    is_path_char after_creation wait_for_pod_running watch_loop any_ready
event-stops = refl

handle_record-lost_example :
    (handle_record message 8 world (some event) ≡ (stopped, []))
    × (handle_record message 8 (redelivered message 8 world world event) (some event)
        ≡ (committed, []))
handle_record-lost_example = handle_record-lost message 8 world world event event-stops
