-- ===== src/BuildService/Pod.antt =====
-- services/build-service/builder.go: the pod that createBuildPod asks for.
pub mod Confined
use iicpc_sh.Prelude.{pos, ◌≡◌, refl, true, false, none, some, List, [], ◌∷◌, String, All}
use iicpc_sh.Kubernetes.{
  SeccompProfile, runtime_default, SecurityContext, Container, bare_container, Resources, Volume,
  Pod, IsConfined, IsLocked, Holds, holds, every_container, IsMounted,
}

-- `secctx()`
abbrev pub secctx : SecurityContext
secctx = record {
  run_as_user = some (pos 65534);
  run_as_non_root = some true;
  read_only_root_filesystem = some true;
  allow_privilege_escalation = some false;
  drop = "ALL" ∷ [];
  seccomp_profile = some runtime_default;
  app_armor_runtime_default = true;
}

abbrev pub download_source : String → Container
download_source source_url =
    record (bare_container "download-source" "alpine:3.23" ("sh" ∷ "-c" ∷ [])) {
      args =
          "wget -q -O /workspace/source.tar.gz \"$SOURCE_URL\" && tar xzf /workspace/source.tar.gz -C /workspace && rm /workspace/source.tar.gz"
          ∷ [];
      env = ("SOURCE_URL", source_url) ∷ [];
      security_context = some secctx;
      volume_mounts = ("workspace", "/workspace") ∷ ("tmp", "/tmp") ∷ [];
    }

abbrev pub build_container : String → String → Container
build_container image build_cmd = record (bare_container "build" image ("sh" ∷ "-c" ∷ [])) {
  args = build_cmd ∷ [];
  working_dir = "/workspace";
  env = ("GOCACHE", "/tmp/go-build-cache") ∷ ("GOPATH", "/tmp/go-path") ∷ [];
  security_context = some secctx;
  volume_mounts = ("workspace", "/workspace") ∷ ("tmp", "/tmp") ∷ [];
  resources = some (record { limits = ("2", "2Gi"); requests = ("1", "512Mi") });
}

abbrev pub upload_binary : String → Container
upload_binary binary_upload_url =
    record (bare_container "upload-binary" "alpine/curl:8.9.1" ("sh" ∷ "-c" ∷ [])) {
      args =
          "curl -sS -f -X PUT \\\n  -H \"Content-Type: application/octet-stream\" \\\n  -T /workspace/binary \\\n  --max-time 60 \\\n  \"$BINARY_UPLOAD_URL\" \\\n  && echo \"upload: ok\" || { echo \"upload failed\"; exit 1; }"
          ∷ [];
      env = ("BINARY_UPLOAD_URL", binary_upload_url) ∷ [];
      security_context = some secctx;
      volume_mounts = ("workspace", "/workspace") ∷ ("tmp", "/tmp") ∷ [];
    }

-- createBuildPod up to the call that creates the pod.
unfoldable pub build_pod_spec : String → String → String → String → String → Pod
build_pod_spec name image build_cmd source_url binary_upload_url = record {
  name = name;
  namespace = "builds";
  labels = ("app", "build") ∷ ("role", "build-pod") ∷ ("app.kubernetes.io/name", "build") ∷ [];
  automount_service_account_token = none;
  init_containers =
      download_source source_url
      ∷ build_container image build_cmd
      ∷ upload_binary binary_upload_url
      ∷ [];
  containers =
      record (bare_container "done" "alpine:3.23" ("true" ∷ [])) { security_context = some secctx }
      ∷ [];
  volumes =
      record { name = "workspace"; size_limit = some "512Mi" }
      ∷ record { name = "tmp"; size_limit = none }
      ∷ [];
  node_selector = [];
  tolerations = [];
}
