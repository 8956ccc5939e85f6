-- ===== src/Sandbox/Ready.antt =====
-- When a pod that is waited for was ready.
use iicpc_sh.Prelude.{
  ◌&&◌, sym, ◌≡◌, refl, arith, inl, inr, true, none, some, List, [], ◌∷◌, Bool-cases, Option-cases,
  ap, ◌∙◌,
}
use iicpc_sh.Sandbox.{
  Condition, Watched, other_object, pod_in, pending, running, succeeded, failed, any_ready, watched,
  watch_loop, World, wait_for_pod_running,
}

-- Some condition is of type Ready and is True.
pub data HasReady : List Condition → Type 0 where
  here :
      (c : Condition) (cs : List Condition)
      → c.is_ready_type ≡ true
      → c.is_true ≡ true
      → HasReady (c ∷ cs)
  there : (c : Condition) (cs : List Condition) → HasReady cs → HasReady (c ∷ cs)

any_ready-HasReady : (cs : List Condition) → any_ready cs ≡ true → HasReady cs
unfolding any_ready
any_ready-HasReady [] h = absurd (ground arith)
any_ready-HasReady (c ∷ cs) h = elim (Bool-cases (c.is_ready_type && c.is_true)) [
  | inl ready ↦ here c cs (ground arith) (ground arith)
  | inr other ↦ there c cs (any_ready-HasReady cs (ground arith))
]

HasReady-any_ready : (cs : List Condition) → HasReady cs → any_ready cs ≡ true
unfolding any_ready
HasReady-any_ready _ (here c cs t s) = ground arith
HasReady-any_ready _ (there c cs h) = ground (arith, HasReady-any_ready cs h)

-- The pod is seen running and ready before it is seen to have ended and before the watch ends.
pub data BecomesReady : List Watched → Type 0 where
  now :
      (cs : List Condition) (es : List Watched)
      → HasReady cs
      → BecomesReady (pod_in running cs ∷ es)
  after_running :
      (cs : List Condition) (es : List Watched)
      → BecomesReady es
      → BecomesReady (pod_in running cs ∷ es)
  after_pending :
      (cs : List Condition) (es : List Watched)
      → BecomesReady es
      → BecomesReady (pod_in pending cs ∷ es)
  after_other : (es : List Watched) → BecomesReady es → BecomesReady (other_object ∷ es)

watch_loop-BecomesReady : (es : List Watched) → watch_loop es ≡ none → BecomesReady es
unfolding watch_loop
watch_loop-BecomesReady [] h = absurd (ground arith)
watch_loop-BecomesReady (other_object ∷ es) h = after_other es (watch_loop-BecomesReady es h)
watch_loop-BecomesReady (pod_in failed cs ∷ es) h = absurd (ground arith)
watch_loop-BecomesReady (pod_in succeeded cs ∷ es) h = absurd (ground arith)
watch_loop-BecomesReady (pod_in pending cs ∷ es) h =
    after_pending cs es (watch_loop-BecomesReady es h)
watch_loop-BecomesReady (pod_in running cs ∷ es) h = elim (Bool-cases (any_ready cs)) [
  | inl ready ↦ now cs es (any_ready-HasReady cs ready)
  | inr waits ↦ after_running cs es (watch_loop-BecomesReady es (ground arith))
]

BecomesReady-watch_loop : (es : List Watched) → BecomesReady es → watch_loop es ≡ none
unfolding watch_loop
BecomesReady-watch_loop _ (now cs es h) = rw (HasReady-any_ready cs h) refl
BecomesReady-watch_loop _ (after_running cs es h) = ground (arith, BecomesReady-watch_loop es h)
BecomesReady-watch_loop _ (after_pending cs es h) = BecomesReady-watch_loop es h
BecomesReady-watch_loop _ (after_other es h) = BecomesReady-watch_loop es h

-- The watch was opened and the pod becomes ready on it.
abbrev pub WasReady : World → Type 0
WasReady w = (es : List Watched) × ((w.watcher ≡ some es) × BecomesReady es)

pub not_none : {A : Type 0} {a : A} → none ≡ some a → ⊥
not_none e = absurd (ground arith)

pub waited-WasReady : (w : World) → wait_for_pod_running w ≡ none → WasReady w
unfolding wait_for_pod_running
waited-WasReady w h = elim (Option-cases w.watcher) [
  | inl shut ↦ absurd (not_none (sym h ∙ ap watched shut))
  | inr (es, opened) ↦ (es, (opened, watch_loop-BecomesReady es (sym (ap watched opened) ∙ h)))
]

pub WasReady-waited : (w : World) → WasReady w → wait_for_pod_running w ≡ none
unfolding wait_for_pod_running
WasReady-waited w (es, (opened, h)) = ap watched opened ∙ BecomesReady-watch_loop es h
