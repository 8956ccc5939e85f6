-- ===== src/BuildService/Build.antt =====
-- services/build-service/builder.go and consumer.go: Build and the handling of a record.
--
-- The services that a build calls are an argument: a `World` says how each call ends. A build
-- returns its result and its calls of Kubernetes that change something, in order. The deadlines of
-- the contexts are among the reasons for a call to fail, but for that of the deletion: it runs from
-- the creation of the pod, so `seconds_since_creation`, when the deletion is asked for, is compared
-- with it. The pod that a build creates is in Pod.
pub mod Completed
pub mod Cleanup
use iicpc_sh.Prelude.{
  ℕ, Bool, true, false, Option, none, some, List, [], ◌∷◌, ◌++◌, String, str_eq, str_append,
  if◌then◌else◌, ◌==◌, not, ltb, ◌&&◌, ◌⊎◌, inl, inr,
}
use iicpc_sh.BuildService.Logs.{read_log}

pub record SubmissionCreatedEvent : Type 0 where
  pub event : String
  pub submission_id : String
  pub language : String
  pub artifact_path : String
  pub team_name : String

-- buildImages
unfoldable pub build_image : String → Option String
build_image l =
    if str_eq l "cpp"
    then some "gcc:16-trixie"
    else if str_eq l "rust"
    then some "rust:1.95-alpine"
    else if str_eq l "go"
    then some "golang:1.26-alpine"
    else none

-- Whether buildCommands has an entry.
unfoldable pub has_command : String → Bool
has_command l = if str_eq l "cpp" then true else if str_eq l "rust" then true else str_eq l "go"

pub data Phase : Type 0 where
  pending running succeeded failed : Phase

-- An event of the watcher: an object that is not a pod, or a pod in a phase.
pub data Watched : Type 0 where
  other_object : Watched
  pod_in : Phase → Watched

-- The status of an init container: its name and, if it has terminated, its exit code.
pub record InitStatus : Type 0 where
  pub name : String
  pub exit_code : Option ℕ

pub record World : Type 0 where
  pub source_url : Option String
  pub upload_url : Option String
  pub created : Bool
  pub seconds_since_creation : ℕ
  pub deletion_accepted : Bool
  pub watcher : Option (List Watched)
  pub statuses : Option (List InitStatus)
  pub stream : String → Option (List (List ℕ))
  pub valid_utf8 : List ℕ → Bool
  pub failed_published : Bool
  pub complete_published : Bool

pub data WaitError : Type 0 where
  no_watch pod_failed watch_closed : WaitError

pub data BuildError : Type 0 where
  unsupported_language no_build_command no_source_url no_upload_url not_created : BuildError
  build_failed : WaitError → BuildError
  build_error : List ℕ → BuildError

abbrev pub binary_path : String → String
binary_path id = str_append "builds/" (str_append id "/binary")

abbrev pub pod_name : String → String
pod_name id = str_append "build-" id

pub data Call : Type 0 where
  create_pod : String → Call
  -- A request to delete a pod, and whether it is carried out.
  delete_pod : String → Bool → Call

-- The loop of waitForPodCompletion; `none` is success.
unfoldable pub watch_loop : List Watched → Option WaitError
watch_loop [] = some watch_closed
watch_loop (other_object ∷ es) = watch_loop es
watch_loop (pod_in succeeded ∷ es) = none
watch_loop (pod_in failed ∷ es) = some pod_failed
watch_loop (pod_in pending ∷ es) = watch_loop es
watch_loop (pod_in running ∷ es) = watch_loop es

abbrev pub watched : Option (List Watched) → Option WaitError
watched none = some no_watch
watched (some es) = watch_loop es

unfoldable pub wait_for_pod_completion : World → Option WaitError
wait_for_pod_completion w = watched w.watcher

abbrev pub has_failed : Option ℕ → Bool
has_failed none = false
has_failed (some code) = not (code == 0)

-- The container whose log is read: the first init container that failed, or `done`.
unfoldable pub failed_container : List InitStatus → String
failed_container [] = "done"
failed_container (cs ∷ css) =
    let rest = failed_container css in if has_failed cs.exit_code then cs.name else rest

-- readPodLogs
unfoldable pub read_pod_logs : World → ℕ → Option (List ℕ)
read_pod_logs w max_log_bytes = elim w.statuses [
  | none ↦ none
  | some css ↦ elim (w.stream (failed_container css)) [
    | none ↦ none
    | some chunks ↦ read_log w.valid_utf8 max_log_bytes chunks
  ]
]

-- What Build does with the end of the watch; a success is the BinaryPath of its BuildResult.
unfoldable pub build_result : World → ℕ → String → Option WaitError → BuildError ⊎ String
build_result w max_log_bytes id none = inr (binary_path id)
build_result w max_log_bytes id (some err) = elim (read_pod_logs w max_log_bytes) [
  | none ↦ inl (build_failed err)
  | some logs ↦ inl (build_error logs)
]

abbrev pub cleanup_seconds : ℕ
cleanup_seconds = 30

-- cleanupPod under cleanupCtx.
unfoldable pub cleanup_pod : World → String → Call
cleanup_pod w name =
    delete_pod name (ltb w.seconds_since_creation cleanup_seconds && w.deletion_accepted)

-- (*Builder).Build; the deferred cleanupPod comes last.
unfoldable pub build_pod : World → ℕ → String → (BuildError ⊎ String) × List Call
build_pod w max_log_bytes id =
    let ran : (BuildError ⊎ String) × List Call = (
      build_result w max_log_bytes id (wait_for_pod_completion w),
      create_pod (pod_name id) ∷ cleanup_pod w (pod_name id) ∷ [],
    ) in
    let refused : (BuildError ⊎ String) × List Call = (inl not_created, []) in
    if w.created then ran else refused

unfoldable pub build : World → ℕ → SubmissionCreatedEvent → (BuildError ⊎ String) × List Call
build w max_log_bytes event =
    let ran = build_pod w max_log_bytes event.submission_id in
    elim (build_image event.language) [
      | none ↦ (inl unsupported_language, [])
      | some image ↦
          if has_command event.language
          then elim w.source_url [
            | none ↦ (inl no_source_url, [])
            | some _ ↦ elim w.upload_url [ none ↦ (inl no_upload_url, []) | some _ ↦ ran ]
          ]
          else (inl no_build_command, [])
    ]

-- What the consumer publishes.
pub data Published : Type 0 where
  build_failed_event : String → BuildError → Published
  build_complete_event : (submission_id path language team_name : String) → Published

-- How a record ends: with its offset committed, or with the error that stops Run.
pub data Handled : Type 0 where
  committed stopped : Handled

-- The end of handleRecord after the build.
unfoldable pub publish_result :
    World → SubmissionCreatedEvent → BuildError ⊎ String → Handled × List Published
publish_result w e (inl err) =
    (committed, if w.failed_published then build_failed_event e.submission_id err ∷ [] else [])
publish_result w e (inr path) =
    if w.complete_published
    then (committed, build_complete_event e.submission_id path e.language e.team_name ∷ [])
    else (stopped, [])

-- (*Consumer).handleRecord and the commit after it; `none` is a record that is not a message.
unfoldable pub handle_record : World → ℕ → Option SubmissionCreatedEvent → Handled × List Published
handle_record w max_log_bytes none = (committed, [])
handle_record w max_log_bytes (some e) =
    let done = publish_result w e (build w max_log_bytes e).0 in
    if str_eq e.event "submission.created" then done else (committed, [])

-- The loop of Run over the records of one poll, each with the world that it meets: a record that
-- stops it is neither committed nor followed by the next.
unfoldable pub handle_records :
    ℕ → List (World × Option SubmissionCreatedEvent) → ℕ × List Published
handle_records max_log_bytes [] = (0, [])
handle_records max_log_bytes ((w, r) ∷ rs) =
    let (end, sent) = handle_record w max_log_bytes r in
    let (n, more) = handle_records max_log_bytes rs in
    elim end [ stopped ↦ (0, sent) | committed ↦ (ℕ.suc n, sent ++ more) ]
