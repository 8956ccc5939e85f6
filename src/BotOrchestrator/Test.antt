-- ===== src/BotOrchestrator/Test.antt =====
-- services/bot-orchestrator/orchestrator.go: Handle, runTest and waitForJob.
--
-- Kubernetes and the broker are an argument: a `World` says how each call ends. A test returns its
-- calls that change something, in order, each with whether it is carried out. All calls are made under
-- one context: after it is cancelled, each fails. The job is in Job; the log is left out.
pub mod Ends
use iicpc_sh.Prelude.{
  not, ◌&&◌, ◌||◌, ℕ, ◌≡◌, refl, arith, inl, inr, ◌↔◌, Bool, true, false, Option, none, some, List,
  [], ◌∷◌, ◌++◌, String, str_eq, str_append, ltb, if◌then◌else◌, Bool-cases,
}

pub record SandboxReadyEvent : Type 0 where
  pub submission_id : String
  pub pod_name : String
  pub team_name : String

-- An event of the job's watcher. The status of a job has counts of pods.
pub data Watched : Type 0 where
  modified : (succeeded failed : ℕ) → Watched
  modified_other other_event : Watched
  error_event : Watched

pub record World : Type 0 where
  pub job_created : Bool
  -- The context is done by the end of the warm-up, or by the end of the watch.
  pub cancelled_in_warmup : Bool
  pub watcher : Option (List Watched)
  pub cancelled_in_watch : Bool
  -- How the later calls end under a context that is not done.
  pub job_deleted : Bool
  pub pod_deleted : Bool
  pub complete_published : Bool

pub data TestError : Type 0 where
  job_not_created cancelled no_watch job_failed watch_error timed_out : TestError

pub data Call : Type 0 where
  create_job delete_job delete_pod : String → Bool → Call
  publish_test_complete :
      (submission_id team_name : String) → (success : Bool) → Option TestError → Bool → Call

-- The loop of waitForJob over the watcher's events; `none` is success.
unfoldable pub watch_loop : Bool → List Watched → Option TestError
watch_loop cancelled_after [] = some (if cancelled_after then cancelled else timed_out)
watch_loop cancelled_after (modified s f ∷ es) =
    let rest = watch_loop cancelled_after es in
    if ltb 0 s then none else if ltb 0 f then some job_failed else rest
watch_loop cancelled_after (modified_other ∷ es) = watch_loop cancelled_after es
watch_loop cancelled_after (other_event ∷ es) = watch_loop cancelled_after es
watch_loop cancelled_after (error_event ∷ es) = some watch_error

-- (*Orchestrator).waitForJob
abbrev pub watched : Bool → Option (List Watched) → Option TestError
watched cancelled_after none = some no_watch
watched cancelled_after (some es) = watch_loop cancelled_after es

unfoldable pub wait_for_job : World → Option TestError
wait_for_job w = watched w.cancelled_in_watch w.watcher

abbrev pub is_done : World → Bool
is_done w = w.cancelled_in_warmup || w.cancelled_in_watch

abbrev pub job_name : String → String
job_name id = str_append "bot-runner-" id

-- (*Orchestrator).runTest; a return during the warm-up leaves the job.
unfoldable pub run_test : World → SandboxReadyEvent → Option TestError × List Call
run_test w e =
    let job = job_name e.submission_id in
    let waited : Option TestError × List Call = (
      wait_for_job w,
      create_job job true ∷ delete_job job (not (is_done w) && w.job_deleted) ∷ [],
    ) in
    let left : Option TestError × List Call = (some cancelled, create_job job true ∷ []) in
    if w.job_created
    then (if w.cancelled_in_warmup then left else waited)
    else (some job_not_created, create_job job false ∷ [])

-- deleteSandboxPod
unfoldable pub delete_sandbox_pod : World → String → List Call
delete_sandbox_pod w name =
    if str_eq name "" then [] else delete_pod name (not (is_done w) && w.pod_deleted) ∷ []

abbrev pub is_none : Option TestError → Bool
is_none none = true
is_none (some _) = false

-- (*Orchestrator).Handle
unfoldable pub handle : World → SandboxReadyEvent → List Call
handle w e =
    let (err, calls) = run_test w e in
    calls
    ++ (delete_sandbox_pod w e.pod_name
        ++ (publish_test_complete e.submission_id e.team_name (is_none err) err
              (not (is_done w) && w.complete_published)
            ∷ []))
