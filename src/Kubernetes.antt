-- ===== src/Kubernetes.antt =====
-- The objects that services/build-service/builder.go, services/sandbox-orchestrator/orchestrator.go and
-- services/bot-orchestrator/orchestrator.go hand to the Kubernetes API: of each type, the fields that
-- the services set. A field that a service leaves out is `none`, or an empty list. A quantity is the
-- text that resource.MustParse reads.
use iicpc_sh.Prelude.{
  ℕ, ℤ, ◌≡◌, Bool, true, false, ◌||◌, List, [], ◌∷◌, ◌++◌, Option, none, some, String, str_eq, All,
}

pub data SeccompProfile : Type 0 where
  runtime_default : SeccompProfile
  localhost : String → SeccompProfile

pub record SecurityContext : Type 0 where
  pub run_as_user : Option ℤ
  pub run_as_non_root : Option Bool
  pub read_only_root_filesystem : Option Bool
  pub allow_privilege_escalation : Option Bool
  pub drop : List String
  pub seccomp_profile : Option SeccompProfile
  pub app_armor_runtime_default : Bool

pub record Probe : Type 0 where
  pub path : String
  pub port : ℕ
  pub initial_delay_seconds : ℕ
  pub period_seconds : ℕ
  pub failure_threshold : ℕ

-- CPU and memory.
pub record Resources : Type 0 where
  pub limits : String × String
  pub requests : String × String

pub record Container : Type 0 where
  pub name : String
  pub image : String
  pub command : List String
  pub args : List String
  pub working_dir : String
  pub env : List (String × String)
  pub ports : List (String × ℕ)
  -- the names of the volumes, each with its path
  pub volume_mounts : List (String × String)
  pub security_context : Option SecurityContext
  pub readiness_probe : Option Probe
  pub resources : Option Resources

abbrev pub bare_container : String → String → List String → Container
bare_container name image command = record {
  name = name;
  image = image;
  command = command;
  args = [];
  working_dir = "";
  env = [];
  ports = [];
  volume_mounts = [];
  security_context = none;
  readiness_probe = none;
  resources = none;
}

-- An EmptyDir with its SizeLimit.
pub record Volume : Type 0 where
  pub name : String
  pub size_limit : Option String

-- A toleration of `key` equal to `value` with the effect NoSchedule.
pub record Toleration : Type 0 where
  pub key : String
  pub value : String

-- A pod whose RestartPolicy is Never.
pub record Pod : Type 0 where
  pub name : String
  pub namespace : String
  pub labels : List (String × String)
  pub automount_service_account_token : Option Bool
  pub init_containers : List Container
  pub containers : List Container
  pub volumes : List Volume
  pub node_selector : List (String × String)
  pub tolerations : List Toleration

-- The process has no way to be root, to gain privileges, or to write the image.
pub record IsConfined (uid : ℤ) (sc : SecurityContext) : Type 0 where
  pub user : sc.run_as_user ≡ some uid
  pub non_root : sc.run_as_non_root ≡ some true
  pub read_only : sc.read_only_root_filesystem ≡ some true
  pub no_escalation : sc.allow_privilege_escalation ≡ some false

-- It has no capability, and a seccomp and an AppArmor profile.
pub record IsLocked (sc : SecurityContext) : Type 0 where
  pub drops_all : sc.drop ≡ "ALL" ∷ []
  pub seccomp : (p : SeccompProfile) × (sc.seccomp_profile ≡ some p)
  pub app_armor : sc.app_armor_runtime_default ≡ true

pub data Holds (P : SecurityContext → Type 0) (c : Container) : Type 0 where
  holds : (sc : SecurityContext) → c.security_context ≡ some sc → P sc → Holds P c

abbrev pub every_container : Pod → List Container
every_container pod = pod.init_containers ++ pod.containers

abbrev pub has_volume : String → List Volume → Bool
has_volume n [] = false
has_volume n (v ∷ vs) = str_eq v.name n || has_volume n vs

-- Every mount names a volume of the pod.
abbrev pub IsMounted : Pod → Type 0
IsMounted pod =
    All
      (λ (c : Container).
        All (λ (m : String × String). has_volume m.0 pod.volumes ≡ true) c.volume_mounts)
      (every_container pod)
