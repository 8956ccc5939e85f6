-- ===== src/Sandbox/Pod/Confined.antt =====
-- What the contestant's pod may do, and what its download's shell may run.
use Prim.Native.Char.{code}
use iicpc_sh.Prelude.{
  ℕ, ◌≡◌, refl, arith, Bool, true, false, not, ◌&&◌, ◌||◌, [], ◌∷◌, some, String, ◌==◌, leb, All,
  Bool-cases, inl, inr, map, subst,
}
use iicpc_sh.Kubernetes.{
  Container, Pod, IsConfined, IsLocked, Holds, holds, every_container, IsMounted,
}
use iicpc_sh.Sandbox.{is_path_char, all_path_chars, valid_path}
use iicpc_sh.Sandbox.Pod.{SandboxConfig, sandbox_pod, pod_for, download_script, binary_url}

-- The characters that the shell does not take as they are: blanks, newlines and those of its syntax.
unfoldable pub is_shell_char : ℕ → Bool
is_shell_char c =
    leb c b' '
    || c == b'!'
    || c == b'"'
    || c == b'#'
    || c == b'$'
    || c == b'%'
    || c == b'&'
    || c == b'\''
    || c == b'('
    || c == b')'
    || c == b'*'
    || c == b';'
    || c == b'<'
    || c == b'='
    || c == b'>'
    || c == b'?'
    || c == b'['
    || c == b'\\'
    || c == b']'
    || c == b'^'
    || c == b'`'
    || c == b'{'
    || c == b'|'
    || c == b'}'
    || c == b'~'

unfoldable pub is_plain : String → Bool
is_plain String.[] = true
is_plain (String.◌∷◌ c s) = not (is_shell_char (code c)) && is_plain s

path_char-plain : (c : ℕ) → is_path_char c ≡ true → is_shell_char c ≡ false
unfolding is_path_char is_shell_char
path_char-plain c h = ground arith

both : (a b : Bool) → (a && b) ≡ true → (a ≡ true) × (b ≡ true)
both a b h = ground arith

all_path_chars-plain : (s : String) → all_path_chars s ≡ true → is_plain s ≡ true
unfolding all_path_chars is_plain
all_path_chars-plain String.[] h = refl
all_path_chars-plain (String.◌∷◌ c s) h =
    let (here, there) = both (is_path_char (code c)) (all_path_chars s) h in
    rw (path_char-plain (code c) here) (all_path_chars-plain s there)

valid_path-plain : (s : String) → valid_path s ≡ true → is_plain s ≡ true
unfolding valid_path
valid_path-plain s h = all_path_chars-plain s (ground arith)

pub record IsContained (cfg : SandboxConfig) (endpoint path : String) (pod : Pod) : Type 0 where
  pub confined : All (Holds (IsConfined cfg.run_as_user)) (every_container pod)
  pub locked : All (Holds IsLocked) pod.containers
  pub no_token : pod.automount_service_account_token ≡ some false
  pub mounted : IsMounted pod
  pub script :
      map (λ (c : Container). c.command) pod.init_containers
      ≡ ("sh" ∷ "-c" ∷ download_script (binary_url endpoint path) ∷ []) ∷ []
  pub plain : is_plain path ≡ true

pod_for-IsContained :
    (cfg : SandboxConfig) (endpoint name path : String)
    → valid_path path ≡ true
    → IsContained cfg endpoint path (pod_for cfg endpoint name path)
pod_for-IsContained cfg endpoint name path ok = record {
  confined = (
    holds _ refl (record { user = refl; non_root = refl; read_only = refl; no_escalation = refl }),
    (
      holds _ refl
          (record { user = refl; non_root = refl; read_only = refl; no_escalation = refl }),
      tt,
    ),
  );
  locked = (holds _ refl (record { drops_all = refl; seccomp = (_, refl); app_armor = refl }), tt);
  no_token = refl;
  mounted = ((refl, tt), ((refl, (refl, tt)), tt));
  script = refl;
  plain = valid_path-plain path ok;
}

-- Every pod that createSandboxPod asks for is contained: no container runs as root, gains privileges
-- or writes its image, and all run as the configured user; the contestant's has no capability and has
-- a seccomp and an AppArmor profile; no token is mounted, and every mount has its volume; and the shell
-- takes each character of the path in its one script as it is.
pub sandbox_pod-IsContained :
    (cfg : SandboxConfig) (endpoint name path : String) (pod : Pod)
    → sandbox_pod cfg endpoint name path ≡ some pod
    → IsContained cfg endpoint path pod
unfolding sandbox_pod
sandbox_pod-IsContained cfg endpoint name path pod e = elim (Bool-cases (valid_path path)) [
  | inr bad ↦ absurd (ground arith)
  | inl ok ↦
      let same : pod_for cfg endpoint name path ≡ pod = ground arith in
      subst (IsContained cfg endpoint path) same (pod_for-IsContained cfg endpoint name path ok)
]
