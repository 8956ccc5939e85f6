-- ===== src/Sandbox/Deployed.antt =====
-- The pods that a deployment leaves, and what is published of them.
use iicpc_sh.Prelude.{
  ◌&&◌, ◌||◌, not, Bool, sym, subst, str_eq_iff, ℕ, ◌≡◌, ◌≤◌, refl, arith, inl, inr, ◌⊎◌, true,
  false, none, some, List, [], ◌∷◌, ◌++◌, String, str_eq, Bool-cases, Option-cases, ltb, length,
  length-take, ap, ◌∙◌,
}
use iicpc_sh.Sandbox.{
  invalid_path, is_already_exists, BuildCompleteEvent, World, DeployError, DeployResult, Call,
  create_pod, delete_pod, pod_name, WaitError, reason_of, after_creation, deferred,
  create_sandbox_pod, deploy, wait_for_pod_running, committed, stopped, already_exists,
  exists_already, publish_result, handle_record, valid_path, no_pod, no_ip,
}
use iicpc_sh.Sandbox.Ready.{WasReady, not_none, waited-WasReady, WasReady-waited}

module _ (message : WaitError → List ℕ) (max_log_bytes : ℕ) where
  -- How a deployment ends: the result and the calls.
  pub data Deployment (w : World) (name : String) (r : (DeployError ⊎ DeployResult) × List Call)
      : Type 0 where
    -- No pod was created.
    refused : (err : DeployError) → r.0 ≡ inl err → r.1 ≡ [] → Deployment w name r
    -- The pod was created and deleted, and the deployment is an error: the pod was not ready, or it is
    -- gone or has no address.
    undone :
        (err : DeployError)
        → r.0 ≡ inl err
        → r.1 ≡ create_pod name ∷ delete_pod name ∷ []
        → (¬ (WasReady w)) ⊎ ((w.address ≡ none) ⊎ (w.address ≡ some ""))
        → Deployment w name r
    -- The pod was created, was ready and has an address, and stays.
    live :
        (ip : String)
        → r.0 ≡ inr (record { pod_name = name; pod_ip = ip })
        → r.1 ≡ create_pod name ∷ []
        → w.address ≡ some ip
        → str_eq ip "" ≡ false
        → WasReady w
        → Deployment w name r

  after_creation-Deployment :
      (w : World) (name : String)
      → Deployment w name (
        after_creation message max_log_bytes w name,
        create_pod name
            ∷ deferred message max_log_bytes name (after_creation message max_log_bytes w name),
      )
  unfolding after_creation
  after_creation-Deployment w name = elim (Option-cases (wait_for_pod_running w)) [
    | inr (err, e) ↦
        rw (e, after_creation)
          (undone _ refl refl (inl (λ h. not_none (sym (WasReady-waited w h) ∙ e))))
    | inl ok ↦ elim (Option-cases w.address) [
      | inl gone ↦ rw (ok, after_creation) (simp gone (undone no_pod refl refl (inr (inl gone))))
      | inr (ip, found) ↦ elim (Bool-cases (str_eq ip "")) [
        | inl no_address ↦
            let empty : w.address ≡ some "" = found ∙ ap some ((str_eq_iff ip "").0 no_address) in
            rw (ok, after_creation)
              (simp found (simp no_address (undone no_ip refl refl (inr (inr empty)))))
        | inr address ↦
            rw (ok, after_creation)
              (simp found (simp address (live ip refl refl found address (waited-WasReady w ok))))
      ]
    ]
  ]

  -- A deployment that creates no pod is an error and makes no call. One that creates its pod succeeds if
  -- and only if the watch was opened and shows the pod running and ready before it has ended, and the pod
  -- then has an address; the pod stays. Else it is an error and the pod is deleted.
  pub deploy-Deployment :
      (w : World) (e : BuildCompleteEvent)
      → Deployment w (pod_name e.submission_id) (deploy message max_log_bytes w e)
  unfolding deploy
  deploy-Deployment w e =
      elim (Option-cases (create_sandbox_pod message max_log_bytes w e.binary_path)) [
        | inl made ↦ rw (made, deploy) (after_creation-Deployment w (pod_name e.submission_id))
        | inr (err, not_made) ↦ rw (not_made, deploy) (refused err refl refl)
      ]

  -- The reason of a failed wait is never longer than the limit.
  length-reason_of :
      (err : WaitError) (logs : List ℕ)
      → length (reason_of message max_log_bytes err logs) ≤ max_log_bytes
  unfolding reason_of
  length-reason_of err logs = elim (Bool-cases (ltb max_log_bytes (length (message err ++ logs)))) [
    | inl long ↦ rw long (omega (arith, length-take max_log_bytes (message err ++ logs)))
    | inr short ↦ rw short (ground arith)
  ]

  -- The pod of this name is there after the calls.
  unfoldable pub pod_after : String → Bool → List Call → Bool
  pod_after name exists [] = exists
  pod_after name exists (create_pod n ∷ cs) = pod_after name (exists || str_eq n name) cs
  pod_after name exists (delete_pod n ∷ cs) = pod_after name (exists && not (str_eq n name)) cs

  -- What a later delivery of the event meets: Kubernetes refuses a pod whose name exists.
  abbrev pub later_world : Bool → World → World
  later_world true w = record w { creation = already_exists }
  later_world false w = w

  abbrev pub redelivered : World → World → BuildCompleteEvent → World
  redelivered w w' e =
      later_world (pod_after (pod_name e.submission_id) false (deploy message max_log_bytes w e).1)
        w'

  invalid_stays :
      (w : World) (e : BuildCompleteEvent)
      → valid_path e.binary_path ≡ false
      → (deploy message max_log_bytes w e).0 ≡ inl invalid_path
  unfolding deploy create_sandbox_pod
  invalid_stays w e bad =
      let refused : create_sandbox_pod message max_log_bytes w e.binary_path ≡ some invalid_path =
        unfold create_sandbox_pod in simp bad refl in
      rw (refused, deploy) refl

  exists_again :
      (w : World) (e : BuildCompleteEvent)
      → str_eq e.event "build.complete" ≡ true
      → valid_path e.binary_path ≡ true
      → handle_record message max_log_bytes (later_world true w) (some e) ≡ (committed, [])
  unfolding handle_record publish_result deploy create_sandbox_pod
  exists_again w e complete path =
      let made : create_sandbox_pod message max_log_bytes (later_world true w) e.binary_path
          ≡ some exists_already =
        simp path refl in
      let again : (deploy message max_log_bytes (later_world true w) e).0 ≡ inl exists_already =
        rw (made, deploy) refl in
      simp complete (ap (publish_result message max_log_bytes (later_world true w) e) again)

  publish-stopped :
      (w : World) (e : BuildCompleteEvent) (r : DeployError ⊎ DeployResult)
      → (publish_result message max_log_bytes w e r).0 ≡ stopped
      → (publish_result message max_log_bytes w e r ≡ (stopped, []))
        × ((ok : DeployResult) × (r ≡ inr ok))
  unfolding publish_result
  publish-stopped w e (inl err) h =
      elim (Bool-cases (is_already_exists message max_log_bytes err)) [
        | inl same ↦ absurd (ground arith)
        | inr other ↦ absurd (ground arith)
      ]
  publish-stopped w e (inr ok) h = elim (Bool-cases w.ready_published) [
    | inl sent ↦ absurd (ground arith)
    | inr unsent ↦ (simp unsent refl, (ok, refl))
  ]

  not_both : {err : DeployError} {ok : DeployResult} → inl err ≡ inr ok → ⊥
  not_both e = absurd (ground arith)

  left_again :
      (w w' : World) (e : BuildCompleteEvent) (ok : DeployResult)
      → str_eq e.event "build.complete" ≡ true
      → valid_path e.binary_path ≡ true
      → (deploy message max_log_bytes w e).0 ≡ inr ok
      → handle_record message max_log_bytes (redelivered w w' e) (some e) ≡ (committed, [])
  unfolding pod_after
  left_again w w' e ok complete path deployed = elim (deploy-Deployment w e) [
    | refused err is _ ↦ absurd (not_both (sym is ∙ deployed))
    | undone err is _ _ ↦ absurd (not_both (sym is ∙ deployed))
    | live ip is calls _ _ _ ↦
        let name = pod_name e.submission_id in
        let there : pod_after name false (deploy message max_log_bytes w e).1 ≡ true =
          ap (pod_after name false) calls ∙ ground (arith, str_eq_iff name name) in
        subst
          (λ b. handle_record message max_log_bytes (later_world b w') (some e) ≡ (committed, []))
          (sym there) (exists_again w' e complete path)
  ]

  -- If the handling of a record stops the consumer, nothing was published, and the record is not committed.
  -- When it is delivered again, whatever else has changed, the pod of the first handling is still there:
  -- the record is committed, and again nothing is published.
  pub handle_record-lost :
      (w w' : World) (e : BuildCompleteEvent)
      → (handle_record message max_log_bytes w (some e)).0 ≡ stopped
      → (handle_record message max_log_bytes w (some e) ≡ (stopped, []))
        × (handle_record message max_log_bytes (redelivered w w' e) (some e) ≡ (committed, []))
  unfolding handle_record
  handle_record-lost w w' e stops = elim (Bool-cases (str_eq e.event "build.complete")) [
    | inr other ↦ absurd (ground arith)
    | inl complete ↦
        let r = (deploy message max_log_bytes w e).0 in
        let first : handle_record message max_log_bytes w (some e)
            ≡ publish_result message max_log_bytes w e r =
          simp complete refl in
        let (nothing, (ok, deployed)) = publish-stopped w e r (sym (ap (λ x. x.0) first) ∙ stops) in
        elim (Bool-cases (valid_path e.binary_path)) [
          | inr bad ↦ absurd (not_both (sym (invalid_stays w e bad) ∙ deployed))
          | inl path ↦ (first ∙ nothing, left_again w w' e ok complete path deployed)
        ]
  ]
