-- ===== src/BuildService/Pod/Confined.antt =====
-- What a build's pod may do, and where the path that it reports leads.
use Prim.Native.Char.{code}
use text.Mathlib.TextPositions.{len-append}
use text.Mathlib.TextLemmas.{nil-append, cons-append}
use iicpc_sh.Prelude.{
  ◌≡◌, refl, arith, pos, true, ◌&&◌, some, String, str_append, All, Bool-cases, inl, inr,
}
use iicpc_sh.Kubernetes.{
  SecurityContext, Container, IsConfined, IsLocked, Holds, holds, every_container, IsMounted,
}
use iicpc_sh.BuildService.Build.{binary_path}
use iicpc_sh.BuildService.Pod.{secctx, build_pod_spec}
use iicpc_sh.Sandbox.{all_path_chars, is_path_char, valid_path}

-- Confined and locked, as the user `nobody`.
pub record IsHardened (sc : SecurityContext) : Type 0 where
  pub confined : IsConfined (pos 65534) sc
  pub locked : IsLocked sc

hardened : (c : Container) → c.security_context ≡ some secctx → Holds IsHardened c
hardened c e = holds secctx e (record {
  confined = record { user = refl; non_root = refl; read_only = refl; no_escalation = refl };
  locked = record { drops_all = refl; seccomp = (_, refl); app_armor = refl };
})

-- Every container of a build's pod, whatever the submission, runs as nobody without a way to root, with
-- no capability and with a seccomp and an AppArmor profile, and mounts only volumes of the pod.
build_pod_spec-IsHardened :
    (name image build_cmd source_url binary_upload_url : String)
    → All
        (Holds IsHardened)
        (every_container (build_pod_spec name image build_cmd source_url binary_upload_url))
      × IsMounted (build_pod_spec name image build_cmd source_url binary_upload_url)
unfolding build_pod_spec
build_pod_spec-IsHardened name image build_cmd source_url binary_upload_url = (
  (hardened _ refl, (hardened _ refl, (hardened _ refl, (hardened _ refl, tt)))),
  ((refl, (refl, tt)), ((refl, (refl, tt)), ((refl, (refl, tt)), (tt, tt)))),
)

all_path_chars-append :
    (s t : String) → all_path_chars (str_append s t) ≡ (all_path_chars s && all_path_chars t)
unfolding all_path_chars
all_path_chars-append String.[] t = rw (nil-append t) refl
all_path_chars-append (String.◌∷◌ c s) t =
    rw (cons-append c s t) (elim (Bool-cases (is_path_char (code c))) [
      | inl ok ↦ rw ok (all_path_chars-append s t)
      | inr bad ↦ rw bad refl
    ])

prefix_ok : all_path_chars "builds/" ≡ true
unfolding all_path_chars is_path_char
prefix_ok = refl

suffix_ok : all_path_chars "/binary" ≡ true
unfolding all_path_chars is_path_char
suffix_ok = refl

-- The sandbox takes the path of a finished build if and only if the submission's id has only letters,
-- digits and the characters / _ . - in it.
valid_path-binary_path : (id : String) → valid_path (binary_path id) ≡ all_path_chars id
unfolding valid_path
valid_path-binary_path id =
    let whole = all_path_chars-append "builds/" (str_append id "/binary") in
    let rest = all_path_chars-append id "/binary" in
    let long = len-append "builds/" (str_append id "/binary") in
    ground (arith, whole, rest, long, prefix_ok, suffix_ok)
