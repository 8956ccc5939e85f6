-- ===== src/Sandbox.antt =====
-- services/sandbox-orchestrator/orchestrator.go, consumer.go and publisher.go: the deployment of a
-- built submission in a pod of its own.
--
-- Kubernetes and the broker are an argument: a `World` says how each call ends. Strings that are cut
-- at a number of bytes are lists of bytes, and an error is its message, or that the pod exists. The
-- deadlines of the contexts are left out; the pod is in Pod.
pub mod Ready
pub mod Deployed
pub mod Pod
mod Tests
use iicpc_sh.Prelude.{
  ℕ, suc, ◌+◌, ◌-◌, Bool, true, false, Option, none, some, List, [], ◌∷◌, ◌++◌, String, str_eq,
  str_append, ltb, leb, not, ◌&&◌, ◌||◌, ◌==◌, if◌then◌else◌, ◌⊎◌, inl, inr, length, take,
}
use Prim.Native.Char.{code}
use Prim.Native.String.{len}

pub record BuildCompleteEvent : Type 0 where
  pub event : String
  pub submission_id : String
  pub binary_path : String
  pub team_name : String

pub data Phase : Type 0 where
  pending running succeeded failed : Phase

-- A condition of a pod: that it is of type Ready, and that its status is True.
pub record Condition : Type 0 where
  pub is_ready_type : Bool
  pub is_true : Bool

pub data Watched : Type 0 where
  other_object : Watched
  pod_in : Phase → List Condition → Watched

-- The end of a call that creates the pod.
pub data Created : Type 0 where
  created already_exists not_created : Created

pub record World : Type 0 where
  pub creation : Created
  pub watcher : Option (List Watched)
  pub logs : List ℕ
  pub address : Option String
  pub failed_published : Bool
  pub ready_published : Bool

pub data WaitError : Type 0 where
  no_watch terminated watch_closed : WaitError

pub data DeployError : Type 0 where
  invalid_path exists_already create_failed no_pod no_ip : DeployError
  wait_failed : List ℕ → DeployError

pub record DeployResult : Type 0 where
  pub pod_name : String
  pub pod_ip : String

pub data Call : Type 0 where
  create_pod delete_pod : String → Call

-- `[A-Za-z0-9/_.-]`
unfoldable pub is_path_char : ℕ → Bool
is_path_char c =
    leb b'A' c && leb c b'Z'
    || leb b'a' c && leb c b'z'
    || leb b'0' c && leb c b'9'
    || c == b'/'
    || c == b'_'
    || c == b'.'
    || c == b'-'

unfoldable pub all_path_chars : String → Bool
unfolding is_path_char
all_path_chars String.[] = true
all_path_chars (String.◌∷◌ c s) = is_path_char (code c) && all_path_chars s

-- `o.binaryPathRegex.MatchString`
unfoldable pub valid_path : String → Bool
unfolding all_path_chars
valid_path s = not (len s == 0) && all_path_chars s

unfoldable pub any_ready : List Condition → Bool
any_ready [] = false
any_ready (c ∷ cs) = let rest = any_ready cs in if c.is_ready_type && c.is_true then true else rest

-- The loop of waitForPodRunning; `none` is success.
unfoldable pub watch_loop : List Watched → Option WaitError
unfolding any_ready
watch_loop [] = some watch_closed
watch_loop (other_object ∷ es) = watch_loop es
watch_loop (pod_in failed cs ∷ es) = some terminated
watch_loop (pod_in succeeded cs ∷ es) = some terminated
watch_loop (pod_in pending cs ∷ es) = watch_loop es
watch_loop (pod_in running cs ∷ es) =
    let rest = watch_loop es in if any_ready cs then none else rest

abbrev pub watched : Option (List Watched) → Option WaitError
watched none = some no_watch
watched (some es) = watch_loop es

unfoldable pub wait_for_pod_running : World → Option WaitError
wait_for_pod_running w = watched w.watcher

-- The reason of a wait that failed, cut at cfg.MaxLogBytes. `message` is what comes before the logs.
unfoldable pub reason_of : (WaitError → List ℕ) → ℕ → WaitError → List ℕ → List ℕ
reason_of message max_log_bytes err logs =
    let reason = message err ++ logs in
    if ltb max_log_bytes (length reason) then take max_log_bytes reason else reason

abbrev pub pod_name : String → String
pod_name id = str_append "sandbox-" id

module _ (message : WaitError → List ℕ) (max_log_bytes : ℕ) where
  -- Deploy after the pod was created, without the deferred cleanup.
  unfoldable pub after_creation : World → String → DeployError ⊎ DeployResult
  after_creation w name =
      let found : DeployError ⊎ DeployResult = elim w.address [
        | none ↦ inl no_pod
        | some ip ↦
            if str_eq ip "" then inl no_ip else inr (record { pod_name = name; pod_ip = ip })
      ] in
      elim (wait_for_pod_running w) [
        | some err ↦ inl (wait_failed (reason_of message max_log_bytes err w.logs))
        | none ↦ found
      ]

  -- The deferred function deletes the pod unless `success` was set.
  abbrev pub deferred : String → DeployError ⊎ DeployResult → List Call
  deferred name (inl err) = delete_pod name ∷ []
  deferred name (inr ok) = []

  -- createSandboxPod, and (*Orchestrator).Deploy with its calls in order.
  unfoldable pub create_sandbox_pod : World → String → Option DeployError
  create_sandbox_pod w path =
      if valid_path path
      then elim w.creation [
        | created ↦ none
        | already_exists ↦ some exists_already
        | not_created ↦ some create_failed
      ]
      else some invalid_path

  unfoldable pub deploy : World → BuildCompleteEvent → (DeployError ⊎ DeployResult) × List Call
  deploy w event =
      let name = pod_name event.submission_id in
      let result = after_creation w name in
      elim (create_sandbox_pod w event.binary_path) [
        | some err ↦ (inl err, [])
        | none ↦ (result, create_pod name ∷ deferred name result)
      ]

  pub data Published : Type 0 where
    sandbox_failed : String → DeployError → Published
    sandbox_ready : (submission_id pod_name pod_ip team_name : String) → Published

  pub data Handled : Type 0 where
    committed stopped : Handled

  abbrev pub is_already_exists : DeployError → Bool
  is_already_exists exists_already = true
  is_already_exists _ = false

  unfoldable pub publish_result :
      World → BuildCompleteEvent → DeployError ⊎ DeployResult → Handled × List Published
  publish_result w e (inl err) =
      if is_already_exists err
      then (committed, [])
      else (committed, if w.failed_published then sandbox_failed e.submission_id err ∷ [] else [])
  publish_result w e (inr r) =
      if w.ready_published
      then (committed, sandbox_ready e.submission_id r.pod_name r.pod_ip e.team_name ∷ [])
      else (stopped, [])

  -- (*Consumer).handleRecord and the commit after it.
  unfoldable pub handle_record : World → Option BuildCompleteEvent → Handled × List Published
  handle_record w none = (committed, [])
  handle_record w (some e) =
      let done = publish_result w e (deploy w e).0 in
      if str_eq e.event "build.complete" then done else (committed, [])

-- publisher.go: truncate
unfoldable pub truncate : List ℕ → ℕ → List ℕ
truncate s max = if leb (length s) max then s else take max s
