-- ===== src/BuildService/Build/Completed.antt =====
-- When a build's pod that is waited for ran to its success.
use iicpc_sh.Prelude.{
  sym, ◌≡◌, refl, arith, inl, inr, none, some, List, [], ◌∷◌, Option-cases, ap, ◌∙◌,
}
use iicpc_sh.BuildService.Build.{
  Watched, other_object, pod_in, pending, running, succeeded, failed, watched, watch_loop, World,
  wait_for_pod_completion,
}

-- The pod reports its success before a failure and before the end of the watch.
pub data Completes : List Watched → Type 0 where
  now : (es : List Watched) → Completes (pod_in succeeded ∷ es)
  after_other : (es : List Watched) → Completes es → Completes (other_object ∷ es)
  after_pending : (es : List Watched) → Completes es → Completes (pod_in pending ∷ es)
  after_running : (es : List Watched) → Completes es → Completes (pod_in running ∷ es)

watch_loop-Completes : (es : List Watched) → watch_loop es ≡ none → Completes es
unfolding watch_loop
watch_loop-Completes [] h = absurd (ground arith)
watch_loop-Completes (other_object ∷ es) h = after_other es (watch_loop-Completes es h)
watch_loop-Completes (pod_in pending ∷ es) h = after_pending es (watch_loop-Completes es h)
watch_loop-Completes (pod_in running ∷ es) h = after_running es (watch_loop-Completes es h)
watch_loop-Completes (pod_in succeeded ∷ es) h = now es
watch_loop-Completes (pod_in failed ∷ es) h = absurd (ground arith)

Completes-watch_loop : (es : List Watched) → Completes es → watch_loop es ≡ none
unfolding watch_loop
Completes-watch_loop _ (now es) = refl
Completes-watch_loop _ (after_other es h) = Completes-watch_loop es h
Completes-watch_loop _ (after_pending es h) = Completes-watch_loop es h
Completes-watch_loop _ (after_running es h) = Completes-watch_loop es h

-- The watch was opened and the pod completes on it.
abbrev pub HasCompleted : World → Type 0
HasCompleted w = (es : List Watched) × ((w.watcher ≡ some es) × Completes es)

pub not_none : {A : Type 0} {a : A} → none ≡ some a → ⊥
not_none e = absurd (ground arith)

pub waited-HasCompleted : (w : World) → wait_for_pod_completion w ≡ none → HasCompleted w
unfolding wait_for_pod_completion
waited-HasCompleted w h = elim (Option-cases w.watcher) [
  | inl shut ↦ absurd (not_none (sym h ∙ ap watched shut))
  | inr (es, opened) ↦ (es, (opened, watch_loop-Completes es (sym (ap watched opened) ∙ h)))
]

pub HasCompleted-waited : (w : World) → HasCompleted w → wait_for_pod_completion w ≡ none
unfolding wait_for_pod_completion
HasCompleted-waited w (es, (opened, h)) = ap watched opened ∙ Completes-watch_loop es h
