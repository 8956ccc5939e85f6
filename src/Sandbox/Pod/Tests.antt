-- ===== src/Sandbox/Pod/Tests.antt =====
-- A sandbox's pod on a concrete configuration.
use iicpc_sh.Prelude.{◌≡◌, refl, some, pos}
use iicpc_sh.Sandbox.{valid_path, all_path_chars, is_path_char}
use iicpc_sh.Sandbox.Pod.{SandboxConfig, pod_for, sandbox_pod}
use iicpc_sh.Sandbox.Pod.Confined.{IsContained, sandbox_pod-IsContained}

abbrev config : SandboxConfig
config = record {
  cpu_request = "500m";
  cpu_limit = "1";
  memory_request = "256Mi";
  memory_limit = "512Mi";
  seccomp_profile = "sandbox-seccomp.json";
  run_as_user = pos 65534;
  node_selector_k = "role";
  node_selector_v = "sandbox";
  toleration_k = "";
  toleration_v = "";
}

accepted :
    sandbox_pod config "http://seaweedfs:8333" "sandbox-42" "builds/42/binary"
    ≡ some (pod_for config "http://seaweedfs:8333" "sandbox-42" "builds/42/binary")
unfolding sandbox_pod valid_path all_path_chars is_path_char
accepted = refl

sandbox_pod-IsContained_example :
    IsContained config "http://seaweedfs:8333" "builds/42/binary"
      (pod_for config "http://seaweedfs:8333" "sandbox-42" "builds/42/binary")
sandbox_pod-IsContained_example =
    sandbox_pod-IsContained config "http://seaweedfs:8333" "sandbox-42" "builds/42/binary"
      (pod_for config "http://seaweedfs:8333" "sandbox-42" "builds/42/binary") accepted
