-- ===== src/Sandbox/Pod.antt =====
-- services/sandbox-orchestrator/orchestrator.go: the pod that createSandboxPod asks for.
pub mod Confined
mod Tests
use iicpc_sh.Prelude.{
  ℕ, ℤ, ◌≡◌, refl, Bool, true, false, not, ◌&&◌, ◌||◌, List, [], ◌∷◌, Option, none, some, String,
  str_eq, str_append, if◌then◌else◌, All, Bool-cases, inl, inr,
}
use iicpc_sh.Kubernetes.{
  SeccompProfile, runtime_default, localhost, SecurityContext, Container, bare_container, Probe,
  Resources, Volume, Toleration, Pod,
}
use iicpc_sh.Sandbox.{valid_path}

-- The fields of SandboxConfig that the pod depends on.
pub record SandboxConfig : Type 0 where
  pub cpu_request : String
  pub cpu_limit : String
  pub memory_request : String
  pub memory_limit : String
  pub seccomp_profile : String
  pub run_as_user : ℤ
  pub node_selector_k : String
  pub node_selector_v : String
  pub toleration_k : String
  pub toleration_v : String

abbrev pub http_port : ℕ
http_port = 8080

unfoldable pub sandbox_seccomp_profile : String → SeccompProfile
sandbox_seccomp_profile path = if str_eq path "" then runtime_default else localhost path

abbrev pub binary_url : String → String → String
binary_url endpoint path = str_append endpoint (str_append "/submissions/" path)

abbrev pub download_script : String → String
download_script url =
    str_append "wget -qO /sandbox/binary " (str_append url " && chmod +x /sandbox/binary")

abbrev pub init_download : SandboxConfig → String → Container
init_download cfg url =
    record (bare_container "init-download" "alpine:3.23" ("sh" ∷ "-c" ∷ download_script url ∷ [])) {
      volume_mounts = ("sandbox", "/sandbox") ∷ [];
      security_context = some (record {
        run_as_user = some cfg.run_as_user;
        run_as_non_root = some true;
        read_only_root_filesystem = some true;
        allow_privilege_escalation = some false;
        drop = [];
        seccomp_profile = none;
        app_armor_runtime_default = false;
      });
    }

abbrev pub sandbox_container : SandboxConfig → Container
sandbox_container cfg = record (bare_container "sandbox" "alpine:3.23" ("/sandbox/binary" ∷ [])) {
  working_dir = "/sandbox";
  ports = ("http", http_port) ∷ [];
  volume_mounts = ("sandbox", "/sandbox") ∷ ("tmp", "/tmp") ∷ [];
  security_context = some (record {
    run_as_user = some cfg.run_as_user;
    run_as_non_root = some true;
    read_only_root_filesystem = some true;
    allow_privilege_escalation = some false;
    drop = "ALL" ∷ [];
    seccomp_profile = some (sandbox_seccomp_profile cfg.seccomp_profile);
    app_armor_runtime_default = true;
  });
  readiness_probe = some (record {
    path = "/healthz";
    port = http_port;
    initial_delay_seconds = 1;
    period_seconds = 2;
    failure_threshold = 3;
  });
  resources = some (record {
    limits = (cfg.cpu_limit, cfg.memory_limit);
    requests = (cfg.cpu_request, cfg.memory_request);
  });
}

-- The pod that createSandboxPod describes for a valid path.
abbrev pub pod_for : SandboxConfig → String → String → String → Pod
pod_for cfg endpoint name path = record {
  name = name;
  namespace = "sandboxes";
  labels =
      ("app", "sandbox")
      ∷ ("app.kubernetes.io/name", "sandbox")
      ∷ ("role", "contestant-submission")
      ∷ [];
  automount_service_account_token = some false;
  init_containers = init_download cfg (binary_url endpoint path) ∷ [];
  containers = sandbox_container cfg ∷ [];
  volumes =
      record { name = "sandbox"; size_limit = some "256Mi" }
      ∷ record { name = "tmp"; size_limit = none }
      ∷ [];
  node_selector =
      if not (str_eq cfg.node_selector_k "") && not (str_eq cfg.node_selector_v "")
      then (cfg.node_selector_k, cfg.node_selector_v) ∷ []
      else [];
  tolerations =
      if not (str_eq cfg.toleration_k "") && not (str_eq cfg.toleration_v "")
      then record { key = cfg.toleration_k; value = cfg.toleration_v } ∷ []
      else [];
}

-- createSandboxPod up to the call that creates the pod; `none` is the error of an invalid path.
unfoldable pub sandbox_pod : SandboxConfig → String → String → String → Option Pod
sandbox_pod cfg endpoint name path =
    if valid_path path then some (pod_for cfg endpoint name path) else none
