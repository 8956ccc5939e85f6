-- ===== src/Ingester/Consumer.antt =====
-- services/telemetry-ingester/consumer.go: Run, with the buffer and the flushes of ingester.go.
--
-- A poll is the records that PollFetches gives and whether the commit after them succeeds; a commit that
-- fails is made good by the next one that does not. `decode` is json.Unmarshal, and `is_metrics` the test
-- of the event's name. A process that stops at once keeps what was written and what was committed.
use iicpc_sh.Prelude.{
  ◌≡◌, refl, sym, ap, ◌∙◌, inl, inr, Bool, true, Option, none, some, List, [], ◌∷◌, ◌++◌,
  if◌then◌else◌, Bool-cases,
}
use mathlib.Core.List.{append-nil, append_assoc}
use iicpc_sh.Ingester.{Outcome, Ingester, new_ingester, handle, flush}
use iicpc_sh.Ingester.Conserved.{batches, contents, flush-contents}

module _ {R E S : Type 0} (compute_score : E → S) (decode : R → Option E)
    (is_metrics : E → Bool) where
  -- The ingester, and the records that were read since the last commit that succeeded.
  pub record Service : Type 0 where
    pub ingester : Ingester compute_score
    pub uncommitted : List R

  abbrev pub new_service : Service
  new_service = record { ingester = new_ingester compute_score; uncommitted = [] }

  -- The function of EachRecord, once the record is decoded.
  unfoldable pub handle_event : Ingester compute_score → Option E → Ingester compute_score
  handle_event i none = i
  handle_event i (some e) = if is_metrics e then handle compute_score i e else i

  unfoldable pub each_record : Ingester compute_score → List R → Ingester compute_score
  each_record i [] = i
  each_record i (r ∷ rs) = each_record (handle_event i (decode r)) rs

  -- One round of the loop of Run.
  unfoldable pub poll : Service → List R → Bool → Service
  poll s rs committed = record {
    ingester = each_record s.ingester rs;
    uncommitted = if committed then [] else s.uncommitted ++ rs;
  }

  -- The consumer's rounds and the flushes between them.
  pub data Step : Type 0 where
    polls : List R → Bool → Step
    flushes : Outcome → Step

  unfoldable pub step : Service → Step → Service
  step s (polls rs committed) = poll s rs committed
  step s (flushes o) = record s { ingester = flush compute_score s.ingester o }

  unfoldable pub steps : Service → List Step → Service
  steps s [] = s
  steps s (a ∷ rest) = steps (step s a) rest

  -- The process stops at once and is started again: the records that it then reads once more.
  unfoldable pub restart : Service → Service × List R
  restart s = (
    record { ingester = record s.ingester { event_buffer = [] }; uncommitted = [] },
    s.uncommitted,
  )

  -- The events that the records hold, with their scores.
  unfoldable pub scored : Option E → List (E × S)
  scored none = []
  scored (some e) = if is_metrics e then (e, compute_score e) ∷ [] else []

  unfoldable pub accepted : List R → List (E × S)
  accepted [] = []
  accepted (r ∷ rs) = scored (decode r) ++ accepted rs

  unfoldable pub polled : List Step → List R
  polled [] = []
  polled (polls rs committed ∷ rest) = rs ++ polled rest
  polled (flushes o ∷ rest) = polled rest

  accepted-append : (xs ys : List R) → accepted (xs ++ ys) ≡ accepted xs ++ accepted ys
  unfolding accepted
  accepted-append [] ys = refl
  accepted-append (r ∷ xs) ys =
      ap (λ zs. scored (decode r) ++ zs) (accepted-append xs ys)
      ∙ sym (append_assoc (scored (decode r)) (accepted xs) (accepted ys))

  handle_event-buffer :
      (i : Ingester compute_score) (o : Option E)
      → (handle_event i o).event_buffer ≡ i.event_buffer ++ scored o
  unfolding handle_event scored handle
  handle_event-buffer i none = sym (append-nil i.event_buffer)
  handle_event-buffer i (some e) = elim (Bool-cases (is_metrics e)) [
    | inl same ↦ rw same refl
    | inr other ↦ rw other (sym (append-nil i.event_buffer))
  ]

  handle_event-flushed :
      (i : Ingester compute_score) (o : Option E) → (handle_event i o).flushed ≡ i.flushed
  unfolding handle_event handle
  handle_event-flushed i none = refl
  handle_event-flushed i (some e) = elim (Bool-cases (is_metrics e)) [
    | inl same ↦ rw same refl
    | inr other ↦ rw other refl
  ]

  each_record-buffer :
      (i : Ingester compute_score) (rs : List R)
      → (each_record i rs).event_buffer ≡ i.event_buffer ++ accepted rs
  unfolding each_record accepted
  each_record-buffer i [] = sym (append-nil i.event_buffer)
  each_record-buffer i (r ∷ rs) =
      each_record-buffer (handle_event i (decode r)) rs
      ∙ ap (λ zs. zs ++ accepted rs) (handle_event-buffer i (decode r))
      ∙ append_assoc i.event_buffer (scored (decode r)) (accepted rs)

  each_record-flushed :
      (i : Ingester compute_score) (rs : List R) → (each_record i rs).flushed ≡ i.flushed
  unfolding each_record
  each_record-flushed i [] = refl
  each_record-flushed i (r ∷ rs) =
      each_record-flushed (handle_event i (decode r)) rs ∙ handle_event-flushed i (decode r)

  each_record-contents :
      (i : Ingester compute_score) (rs : List R)
      → contents compute_score (each_record i rs) ≡ contents compute_score i ++ accepted rs
  each_record-contents i rs =
      ap (λ bs. batches compute_score bs ++ (each_record i rs).event_buffer)
        (each_record-flushed i rs)
      ∙ ap (λ zs. batches compute_score i.flushed ++ zs) (each_record-buffer i rs)
      ∙ sym (append_assoc (batches compute_score i.flushed) i.event_buffer (accepted rs))

  steps-contents :
      (s : Service) (ss : List Step)
      → contents compute_score (steps s ss).ingester
        ≡ contents compute_score s.ingester ++ accepted (polled ss)
  unfolding steps step poll polled accepted
  steps-contents s [] = sym (append-nil (contents compute_score s.ingester))
  steps-contents s (polls rs committed ∷ rest) =
      steps-contents (poll s rs committed) rest
      ∙ ap (λ zs. zs ++ accepted (polled rest)) (each_record-contents s.ingester rs)
      ∙ append_assoc (contents compute_score s.ingester) (accepted rs) (accepted (polled rest))
      ∙ ap (λ zs. contents compute_score s.ingester ++ zs) (sym (accepted-append rs (polled rest)))
  steps-contents s (flushes o ∷ rest) =
      steps-contents (step s (flushes o)) rest
      ∙ ap (λ zs. zs ++ accepted (polled rest)) (flush-contents compute_score s.ingester o)

  -- After a poll whose commit succeeds, a process that stops at once reads no record again, and what it
  -- had in its buffer is lost: all events of that poll, and those before it that no flush had taken. The
  -- batches and the lost events are all that the polls gave.
  pub restart-lost :
      (ss : List Step) (rs : List R)
      → let before = steps new_service ss in
        let s = poll before rs true in
        ((restart s).1 ≡ [])
        × (s.ingester.event_buffer ≡ before.ingester.event_buffer ++ accepted rs)
        × (batches compute_score (restart s).0.ingester.flushed ++ s.ingester.event_buffer
            ≡ accepted (polled ss ++ rs))
  unfolding poll restart batches
  restart-lost ss rs =
      let before = steps new_service ss in
      (
        refl,
        each_record-buffer before.ingester rs,
        each_record-contents before.ingester rs
            ∙ ap (λ zs. zs ++ accepted rs) (steps-contents new_service ss)
            ∙ sym (accepted-append (polled ss) rs),
      )
