-- ===== src/BotOrchestrator/Test/Ends.antt =====
-- What a test leaves: its job, the pod of its sandbox and the message of its end.
use iicpc_sh.Prelude.{
  ℕ, ◌≡◌, refl, arith, inl, inr, ◌↔◌, Bool, true, false, Option, none, some, List, [], ◌∷◌, str_eq,
  ltb, if◌then◌else◌, Bool-cases, Option-cases, ap, ◌∙◌, sym,
}
use iicpc_sh.BotOrchestrator.Test.{
  SandboxReadyEvent, Watched, modified, modified_other, other_event, error_event, World, TestError,
  Call, create_job, delete_job, delete_pod, publish_test_complete, watch_loop, watched,
  wait_for_job, is_done, run_test, delete_sandbox_pod, is_none, handle,
}

-- Some event before the end of the watch says that the job succeeded, and none before it says that
-- it failed or that the watch did.
pub data Succeeds : List Watched → Type 0 where
  now : (s f : ℕ) (es : List Watched) → ltb 0 s ≡ true → Succeeds (modified s f ∷ es)
  later : (es : List Watched) → Succeeds es → Succeeds (modified 0 0 ∷ es)
  skip_other : (es : List Watched) → Succeeds es → Succeeds (modified_other ∷ es)
  skip : (es : List Watched) → Succeeds es → Succeeds (other_event ∷ es)

zero_of : (n : ℕ) → ltb 0 n ≡ false → n ≡ 0
zero_of n h = ground arith

watch_loop-Succeeds : (c : Bool) (es : List Watched) → watch_loop c es ≡ none → Succeeds es
unfolding watch_loop
watch_loop-Succeeds c [] h = absurd (ground arith)
watch_loop-Succeeds c (modified s f ∷ es) h = elim (Bool-cases (ltb 0 s)) [
  | inl done ↦ now s f es done
  | inr not_yet ↦ elim (Bool-cases (ltb 0 f)) [
    | inl bad ↦ absurd (ground arith)
    | inr waits ↦
        rw (zero_of s not_yet)
          (rw (zero_of f waits) (later es (watch_loop-Succeeds c es (ground arith))))
  ]
]
watch_loop-Succeeds c (modified_other ∷ es) h = skip_other es (watch_loop-Succeeds c es h)
watch_loop-Succeeds c (other_event ∷ es) h = skip es (watch_loop-Succeeds c es h)
watch_loop-Succeeds c (error_event ∷ es) h = absurd (ground arith)

Succeeds-watch_loop : (c : Bool) (es : List Watched) → Succeeds es → watch_loop c es ≡ none
unfolding watch_loop
Succeeds-watch_loop c _ (now s f es h) = rw h refl
Succeeds-watch_loop c _ (later es h) = Succeeds-watch_loop c es h
Succeeds-watch_loop c _ (skip_other es h) = Succeeds-watch_loop c es h
Succeeds-watch_loop c _ (skip es h) = Succeeds-watch_loop c es h

-- The job of the test and its sandbox's pod exist, and whether each message says success.
pub record Cluster : Type 0 where
  pub job : Bool
  pub pod : Bool
  pub completes : List Bool

-- A call that is carried out.
unfoldable pub carry_out : Cluster → Call → Cluster
carry_out c (create_job name done) = if done then record c { job = true } else c
carry_out c (delete_job name done) = if done then record c { job = false } else c
carry_out c (delete_pod name done) = if done then record c { pod = false } else c
carry_out c (publish_test_complete id team success err done) =
    if done then record c { completes = success ∷ c.completes } else c

unfoldable pub carry_out_all : Cluster → List Call → Cluster
carry_out_all c [] = c
carry_out_all c (call ∷ calls) = carry_out_all (carry_out c call) calls

-- Before the test there is the pod and no job.
abbrev pub before : Cluster
before = record { job = false; pod = true; completes = [] }

-- The job was created and the watcher reports its success.
pub record HasSucceeded (w : World) : Type 0 where
  pub created : w.job_created ≡ true
  pub events : List Watched
  pub opened : w.watcher ≡ some events
  pub succeeds : Succeeds events

-- Kubernetes and the broker carry out what is asked of them under a context that is not done.
pub record IsWilling (w : World) : Type 0 where
  pub job_deleted : w.job_deleted ≡ true
  pub pod_deleted : w.pod_deleted ≡ true
  pub complete_published : w.complete_published ≡ true

pub data Ends (w : World) (e : SandboxReadyEvent) (c : Cluster) : Type 0 where
  -- The context is not done: nothing is left, and one message tells how the test ended.
  finished :
      (success : Bool)
      → is_done w ≡ false
      → c.job ≡ false
      → c.pod ≡ str_eq e.pod_name ""
      → c.completes ≡ success ∷ []
      → (success ≡ true ↔ HasSucceeded w)
      → Ends w e c
  -- The context is done: the job and the pod are left, and no message is published.
  abandoned :
      is_done w ≡ true → c.job ≡ w.job_created → c.pod ≡ true → c.completes ≡ [] → Ends w e c

module _ (w : World) (e : SandboxReadyEvent) where
  abbrev left : Cluster
  left = carry_out_all before (handle w e)

  module _ (done : is_done w ≡ true) where
    done-job : left.job ≡ w.job_created
    unfolding carry_out_all carry_out handle run_test delete_sandbox_pod
    done-job = ground arith

    done-pod : left.pod ≡ true
    unfolding carry_out_all carry_out handle run_test delete_sandbox_pod
    done-pod = ground arith

    done-completes : left.completes ≡ []
    unfolding carry_out_all carry_out handle run_test delete_sandbox_pod
    done-completes = ground arith

  module _ (going : is_done w ≡ false) (willing : IsWilling w) where
    going-job : left.job ≡ false
    unfolding carry_out_all carry_out handle run_test delete_sandbox_pod
    going-job = let j = willing.job_deleted in ground arith

    going-pod : left.pod ≡ str_eq e.pod_name ""
    unfolding carry_out_all carry_out handle run_test delete_sandbox_pod
    going-pod = let p = willing.pod_deleted in ground arith

    going-completes : left.completes ≡ is_none (run_test w e).0 ∷ []
    unfolding carry_out_all carry_out handle run_test delete_sandbox_pod
    going-completes = let p = willing.complete_published in ground arith

    is_none-none : (o : Option TestError) → is_none o ≡ true → o ≡ none
    is_none-none none h = refl
    is_none-none (some err) h = absurd (ground arith)

    no_watch-fails : w.watcher ≡ none → is_none (wait_for_job w) ≡ false
    unfolding wait_for_job
    no_watch-fails shut = ap (λ o. is_none (watched w.cancelled_in_watch o)) shut

    waits : w.job_created ≡ true → (run_test w e).0 ≡ wait_for_job w
    unfolding run_test
    waits made = ground arith

    absent : w.job_created ≡ false → is_none (run_test w e).0 ≡ false
    unfolding run_test
    absent no_job = ground arith

    opened-loop :
        (es : List Watched)
        → w.watcher ≡ some es
        → wait_for_job w ≡ watch_loop w.cancelled_in_watch es
    unfolding wait_for_job
    opened-loop es opened = ap (watched w.cancelled_in_watch) opened

    success-HasSucceeded : is_none (run_test w e).0 ≡ true → HasSucceeded w
    success-HasSucceeded ok = elim (Bool-cases w.job_created) [
      | inr no_job ↦ let f = absent no_job in absurd (ground arith)
      | inl made ↦
          let waited : is_none (wait_for_job w) ≡ true = ap is_none (sym (waits made)) ∙ ok in
          elim (Option-cases w.watcher) [
            | inl shut ↦ let f = no_watch-fails shut in absurd (ground arith)
            | inr (es, opened) ↦ record {
              created = made;
              events = es;
              opened = opened;
              succeeds =
                  watch_loop-Succeeds w.cancelled_in_watch es
                    (sym (opened-loop es opened) ∙ is_none-none (wait_for_job w) waited);
            }
          ]
    ]

    HasSucceeded-success : HasSucceeded w → is_none (run_test w e).0 ≡ true
    HasSucceeded-success h = ap is_none (
        waits h.created
        ∙ opened-loop h.events h.opened
        ∙ Succeeds-watch_loop w.cancelled_in_watch h.events h.succeeds)

-- If Kubernetes and the broker carry out what is asked of them under a context that is not done: a test
-- during which the context is not done leaves no job and no pod (but a pod that the event does not name),
-- and publishes one message, which says success if and only if the job was created and the watcher
-- reports its success before a failure, an error and the end of the watch. A test during which the context
-- is done leaves its job and the pod and publishes nothing.
pub handle-Ends :
    (w : World) (e : SandboxReadyEvent) → IsWilling w → Ends w e (carry_out_all before (handle w e))
handle-Ends w e willing = elim (Bool-cases (is_done w)) [
  | inl done ↦ abandoned done (done-job w e done) (done-pod w e done) (done-completes w e done)
  | inr going ↦
      finished (is_none (run_test w e).0) going (going-job w e going willing)
        (going-pod w e going willing) (going-completes w e going willing)
        (success-HasSucceeded w e going willing, HasSucceeded-success w e going willing)
]
