-- ===== src/BuildService/Build/Cleanup.antt =====
-- The pods of builds, and what the consumer publishes of them.
use iicpc_sh.Prelude.{
  ◌≤◌, ◌<◌, ltb, ◌&&◌, Bool, sym, ℕ, ◌≡◌, refl, arith, inl, inr, ◌⊎◌, true, false, some, List, [],
  ◌∷◌, String, Bool-cases, Option-cases, str_eq, ap, ◌∙◌,
}
use iicpc_sh.BuildService.Build.{
  cleanup_pod, SubmissionCreatedEvent, World, BuildError, build_image, has_command, build_pod,
  build, build_result, Call, create_pod, delete_pod, wait_for_pod_completion, read_pod_logs,
  committed, stopped, binary_path, pod_name, unsupported_language, no_build_command, no_source_url,
  no_upload_url, not_created, build_failed, build_error, publish_result, handle_record,
  build_complete_event,
}
use iicpc_sh.BuildService.Build.Completed.{
  HasCompleted, not_none, waited-HasCompleted, HasCompleted-waited,
}

-- The pod was created and its deletion was asked for: in vain if the 30 seconds since the creation were
-- over by then, and else as Kubernetes decides.
pub record IsCleaned (w : World) (id : String) (calls : List Call) : Type 0 where
  pub done : Bool
  pub calls_are : calls ≡ create_pod (pod_name id) ∷ delete_pod (pod_name id) done ∷ []
  pub late : 30 ≤ w.seconds_since_creation → done ≡ false
  pub in_time : w.seconds_since_creation < 30 → done ≡ w.deletion_accepted

-- The calls of a build, and how it ends.
pub data Lifecycle (w : World) (id : String) (r : (BuildError ⊎ String) × List Call) : Type 0 where
  -- No pod was created, and the build is an error.
  no_pod : (err : BuildError) → r.0 ≡ inl err → r.1 ≡ [] → Lifecycle w id r
  -- The pod was created and ran to its success.
  completed :
      r.0 ≡ inr (binary_path id)
      → IsCleaned w id r.1
      → w.created ≡ true
      → HasCompleted w
      → Lifecycle w id r
  -- The pod was created and did not run to its success.
  broken :
      (err : BuildError)
      → r.0 ≡ inl err
      → IsCleaned w id r.1
      → w.created ≡ true
      → ¬ (HasCompleted w)
      → Lifecycle w id r

cleanup_pod-IsCleaned :
    (w : World) (id : String)
    → IsCleaned w id (create_pod (pod_name id) ∷ cleanup_pod w (pod_name id) ∷ [])
unfolding cleanup_pod
cleanup_pod-IsCleaned w id = record {
  done = ltb w.seconds_since_creation 30 && w.deletion_accepted;
  calls_are = refl;
  late = λ h. ground arith;
  in_time = λ h. ground arith;
}

build_pod-Lifecycle : (w : World) (n : ℕ) (id : String) → Lifecycle w id (build_pod w n id)
unfolding build_pod build_result
build_pod-Lifecycle w n id =
    let cleaned = cleanup_pod-IsCleaned w id in
    elim (Bool-cases w.created) [
      | inr not_there ↦ simp not_there (no_pod not_created refl refl)
      | inl there ↦ simp there (elim (Option-cases (wait_for_pod_completion w)) [
        | inl ok ↦ rw ok (completed refl cleaned there (waited-HasCompleted w ok))
        | inr (why, e) ↦
            let not_done : ¬ (HasCompleted w) =
              λ h. absurd (not_none (sym (HasCompleted-waited w h) ∙ e)) in
            rw e (elim (Option-cases (read_pod_logs w n)) [
              | inl unread ↦
                  rw (unread, build_result) (broken (build_failed why) refl cleaned there not_done)
              | inr (logs, read) ↦
                  rw (read, build_result) (broken (build_error logs) refl cleaned there not_done)
            ])
      ])
    ]

-- A build that creates its pod asks to delete it, on every branch, once; the deletion is in vain if 30
-- seconds or more have passed since the creation, and else as Kubernetes decides. A build that creates no
-- pod is an error and makes no call. A build whose pod was created succeeds if and only if the watch was
-- opened and reports the success of the pod before a failure and before its end.
pub build-Lifecycle :
    (w : World) (n : ℕ) (e : SubmissionCreatedEvent) → Lifecycle w e.submission_id (build w n e)
unfolding build
build-Lifecycle w n e = elim (Option-cases (build_image e.language)) [
  | inl none_such ↦ rw (none_such, build) (no_pod unsupported_language refl refl)
  | inr (image, found) ↦ elim (Bool-cases (has_command e.language)) [
    | inr no_cmd ↦ rw (found, build) (rw no_cmd (no_pod no_build_command refl refl))
    | inl cmd ↦ elim (Option-cases w.source_url) [
      | inl no_src ↦ rw (found, build) (rw cmd (simp no_src (no_pod no_source_url refl refl)))
      | inr (src, s) ↦ elim (Option-cases w.upload_url) [
        | inl no_up ↦
            rw (found, build) (rw cmd (simp s (simp no_up (no_pod no_upload_url refl refl))))
        | inr (up, u) ↦
            rw (found, build) (rw cmd (simp s (simp u (build_pod-Lifecycle w n e.submission_id))))
      ]
    ]
  ]
]

-- A language with an image has a build command.
image-command : (l image : String) → build_image l ≡ some image → has_command l ≡ true
unfolding build_image has_command
image-command l image h = ground arith

-- A record of a created submission is committed after the end of its build was published, unless the
-- broker refused: a refused build.failed is lost, and a refused build.complete stops the consumer
-- before the record is committed.
pub handle_record-published :
    (w : World) (n : ℕ) (e : SubmissionCreatedEvent)
    → str_eq e.event "submission.created" ≡ true
    → (((err : BuildError) × ((build w n e).0 ≡ inl err))
          × ((handle_record w n (some e)).0 ≡ committed)
        ⊎ ((build w n e).0 ≡ inr (binary_path e.submission_id))
          × ((w.complete_published ≡ false) × (handle_record w n (some e) ≡ (stopped, []))
              ⊎ (w.complete_published ≡ true)
                × (handle_record w n (some e) ≡ (
                  committed,
                  build_complete_event e.submission_id
                        (binary_path e.submission_id)
                        e.language
                        e.team_name
                      ∷ [],
                ))))
unfolding handle_record publish_result
handle_record-published w n e is_created =
    let done : (r : BuildError ⊎ String)
        → (build w n e).0 ≡ r
        → handle_record w n (some e) ≡ publish_result w e r =
      λ r h. simp is_created (ap (publish_result w e) h) in
    elim (build-Lifecycle w n e) [
      | no_pod err is _ ↦ inl ((err, is), ap (λ r. r.0) (done (inl err) is))
      | broken err is _ _ _ ↦ inl ((err, is), ap (λ r. r.0) (done (inl err) is))
      | completed is _ _ _ ↦ inr (
        is,
        elim (Bool-cases w.complete_published) [
          | inl sent ↦ inr (sent, done (inr (binary_path e.submission_id)) is ∙ simp sent refl)
          | inr lost ↦ inl (lost, done (inr (binary_path e.submission_id)) is ∙ simp lost refl)
        ],
      )
    ]
