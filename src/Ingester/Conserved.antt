-- ===== src/Ingester/Conserved.antt =====
-- Where the events go, and when a batch is dropped.
use iicpc_sh.Prelude.{
  zero, suc, ◌*◌, ℕ, ◌≡◌, ◌<◌, refl, arith, inl, inr, sym, ap, ◌∙◌, Bool, true, false, List, [],
  ◌∷◌, ◌++◌, ◌==◌, if◌then◌else◌, length, Bool-cases,
}
use mathlib.Core.List.{append-nil, append_assoc}
use iicpc_sh.Ingester.{
  exec_errors, new_ingester, close, Outcome, write_batch, attempts, max_attempts, Ingester, handle,
  flush, Action, arrives, flushes, act, act_all,
}

-- A batch is written if and only if one of the three attempts writes it before the context is done.
attempts-three :
    (o : Outcome) (events : ℕ)
    → attempts o events 0 max_attempts ≡ (
        if write_batch o 0 events
        then true
        else if o.is_done 1
        then false
        else if write_batch o 1 events
        then true
        else if o.is_done 2
        then false
        else write_batch o 2 events)
unfolding attempts
attempts-three o events = ground arith

-- How a flush goes under a context that is done: each Exec fails, and so does the wait for the next attempt.
pub record IsOver (o : Outcome) : Type 0 where
  pub fails : (a j : ℕ) → o.exec a j ≡ false
  pub done : (a : ℕ) → o.is_done a ≡ true

all_errors : (o : Outcome) (a j n : ℕ) → IsOver o → exec_errors o a j n ≡ n
unfolding exec_errors
all_errors o a j zero over = refl
all_errors o a j (suc n) over = ground (arith, over.fails a j, all_errors o a (suc j) n over)

refused : (o : Outcome) (a n : ℕ) → IsOver o → 0 < n → write_batch o a n ≡ false
unfolding write_batch
refused o a n over p = ground (arith, all_errors o a 0 (n * 2) over)

no_length : {A : Type 0} (xs : List A) → length xs ≡ 0 → xs ≡ []
no_length [] h = refl
no_length (x ∷ xs) h = absurd (omega arith)

module _ {E : Type 0} {S : Type 0} (compute_score : E → S) where
  -- The batches one after the other.
  unfoldable pub batches : List (List (E × S) × Bool) → List (E × S)
  batches [] = []
  batches ((b, ok) ∷ bs) = b ++ batches bs

  batches-append :
      (xs ys : List (List (E × S) × Bool)) → batches (xs ++ ys) ≡ batches xs ++ batches ys
  unfolding batches
  batches-append [] ys = refl
  batches-append ((b, ok) ∷ xs) ys =
      ap (λ zs. b ++ zs) (batches-append xs ys) ∙ sym (append_assoc b (batches xs) (batches ys))

  -- The events that arrive, each with its score.
  unfoldable pub arrived : List (Action compute_score) → List (E × S)
  arrived [] = []
  arrived (arrives e ∷ acts) = (e, compute_score e) ∷ arrived acts
  arrived (flushes o ∷ acts) = arrived acts

  -- The batches and the buffer hold all events, in their order.
  abbrev pub contents : Ingester compute_score → List (E × S)
  contents i = batches i.flushed ++ i.event_buffer

  pub flush-contents :
      (i : Ingester compute_score) (o : Outcome) → contents (flush compute_score i o) ≡ contents i
  unfolding flush batches
  flush-contents i o = elim (Bool-cases (length i.event_buffer == 0)) [
    | inl empty ↦ simp empty refl
    | inr some_one ↦ simp some_one (
        append-nil _
        ∙ batches-append i.flushed ((i.event_buffer, _) ∷ [])
        ∙ ap (λ zs. batches i.flushed ++ zs) (append-nil i.event_buffer))
  ]

  -- Every event that arrives is, with its score, in exactly one batch or still in the buffer, and
  -- their order is the order of arrival.
  pub act_all-contents :
      (i : Ingester compute_score) (acts : List (Action compute_score))
      → contents (act_all compute_score i acts) ≡ contents i ++ arrived acts
  unfolding act_all arrived act handle
  act_all-contents i [] = sym (append-nil (contents i))
  act_all-contents i (arrives e ∷ acts) =
      act_all-contents (handle compute_score i e) acts
      ∙ ap (λ zs. zs ++ arrived acts) (sym (append_assoc (batches i.flushed) i.event_buffer _))
      ∙ append_assoc (contents i) _ (arrived acts)
  act_all-contents i (flushes o ∷ acts) =
      act_all-contents (flush compute_score i o) acts
      ∙ ap (λ zs. zs ++ arrived acts) (flush-contents i o)

  flush-dropped :
      (i : Ingester compute_score) (o : Outcome)
      → 0 < length i.event_buffer
      → write_batch o 0 (length i.event_buffer) ≡ false
      → o.is_done 1 ≡ true
      → flush compute_score i o
        ≡ record { event_buffer = []; flushed = i.flushed ++ ((i.event_buffer, false) ∷ []) }
  unfolding flush
  flush-dropped i o p fails done =
      let full : (length i.event_buffer == 0) ≡ false = ground arith in
      let lost : attempts o (length i.event_buffer) 0 max_attempts ≡ false =
        attempts-three o (length i.event_buffer) ∙ ground arith in
      simp full (
        ap (λ ok. record { event_buffer = []; flushed = i.flushed ++ ((i.event_buffer, ok) ∷ []) })
          lost)

  -- The events of the batches that were written.
  unfoldable pub written : List (List (E × S) × Bool) → List (E × S)
  written [] = []
  written ((b, ok) ∷ bs) = if ok then b ++ written bs else written bs

  written-refused :
      (bs : List (List (E × S) × Bool)) (b : List (E × S))
      → written (bs ++ ((b, false) ∷ [])) ≡ written bs
  unfolding written
  written-refused [] b = refl
  written-refused ((c, true) ∷ bs) b = ap (λ zs. c ++ zs) (written-refused bs b)
  written-refused ((c, false) ∷ bs) b = written-refused bs b

  -- An orderly stop loses the buffer: after any arrivals and flushes, Close, under the context of the
  -- lifecycle that is done, empties the buffer, writes nothing more, and the events of the batches, which
  -- are all that arrived, are those before it and then those of the buffer.
  pub close-lost :
      (acts : List (Action compute_score)) (o : Outcome)
      → IsOver o
      → let i = act_all compute_score (new_ingester compute_score) acts in
        let c = close compute_score i o in
        (c.event_buffer ≡ [])
        × (written c.flushed ≡ written i.flushed)
        × (batches c.flushed ≡ batches i.flushed ++ i.event_buffer)
        × (batches c.flushed ≡ arrived acts)
  unfolding close flush batches
  close-lost acts o over =
      let i = act_all compute_score (new_ingester compute_score) acts in
      let all : batches i.flushed ++ i.event_buffer ≡ arrived acts =
        act_all-contents (new_ingester compute_score) acts in
      elim (Bool-cases (length i.event_buffer == 0)) [
        | inl empty ↦
            let none_left : i.event_buffer ≡ [] = no_length i.event_buffer (ground arith) in
            let kept : batches i.flushed ≡ batches i.flushed ++ i.event_buffer =
              sym (ap (λ zs. batches i.flushed ++ zs) none_left ∙ append-nil (batches i.flushed)) in
            simp empty (none_left, refl, kept, kept ∙ all)
        | inr some_left ↦
            let some_events : 0 < length i.event_buffer = ground arith in
            let dropped =
              flush-dropped i o some_events (refused o 0 (length i.event_buffer) over some_events)
                (over.done 1) in
            let gone = flush-contents i o in
            let emptied = ap (λ (x : Ingester compute_score). x.event_buffer) dropped in
            let refused_last = ap (λ (x : Ingester compute_score). x.flushed) dropped in
            let same : batches (flush compute_score i o).flushed ≡ contents i =
              sym (
                ap (λ zs. batches (flush compute_score i o).flushed ++ zs) emptied
                ∙ append-nil (batches (flush compute_score i o).flushed))
              ∙ gone in
            (
              emptied,
              ap written refused_last ∙ written-refused i.flushed i.event_buffer,
              same,
              same ∙ all,
            )
      ]
