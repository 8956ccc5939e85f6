-- ===== src/SubmissionApi/Checked.antt =====
-- What is published was checked, and a confirmation is final.
use Prim.Native.String.{len}
use iicpc_sh.Prelude.{
  ℕ, zero, suc, ◌≡◌, ◌≤◌, refl, arith, inl, inr, Bool, true, false, Option, none, some, List, [],
  ◌∷◌, String, str_eq, str_eq_iff, Bool-cases, Option-cases, All, subst, sym, ap,
}
use iicpc_sh.Prelude.Assoc.{
  lookup, insert, delete, lookup-insert, lookup-delete, lookup-delete-some,
}
use iicpc_sh.SubmissionApi.{
  allowed_language, all_name_chars, max_team_name_len, PendingSubmit, Handler,
  SubmissionCreatedEvent, Reply, artifact_key, check_request, handle_submit_init, replied,
  to_publish, load_pending, finish_confirm, handle_confirm, Refusal, bad_request, init_accepted,
  not_found, id_required, internal_error, Action, inits, loads, publishes, deletes, Service, pick,
  publish_picked, delete_picked, publish_event, delete_pending, confirm_accepted, act, act_all,
}

-- A language that the builder knows, and a team name of 1 to 64 characters of the regular expression.
pub record IsValid (language team_name : String) : Type 0 where
  pub known : allowed_language language ≡ true
  pub named : str_eq team_name "" ≡ false
  pub short : len team_name ≤ max_team_name_len
  pub clean : all_name_chars team_name ≡ true

check_request-IsValid :
    (p : PendingSubmit) → check_request p ≡ none → IsValid p.language p.team_name
unfolding check_request
check_request-IsValid p h = record {
  known = ground arith;
  named = ground arith;
  short = ground arith;
  clean = ground arith;
}

-- An event to publish has checked fields and the path of its own artifact.
pub record IsCheckedEvent (e : SubmissionCreatedEvent) : Type 0 where
  pub valid : IsValid e.language e.team_name
  pub path : e.artifact_path ≡ artifact_key e.submission_id

pub record IsChecked (s : Service) : Type 0 where
  pub pending :
      (id : String) (p : PendingSubmit)
      → lookup id s.handler.pending ≡ some p
      → IsValid p.language p.team_name
  pub started : All IsCheckedEvent s.started
  pub sent : All IsCheckedEvent s.sent
  pub published : All IsCheckedEvent s.handler.published

submit-refused :
    (h : Handler) (req : PendingSubmit) (id : String) (url : Option String) (r : Refusal)
    → check_request req ≡ some r
    → handle_submit_init h (some req) id url ≡ (h, bad_request r)
unfolding handle_submit_init
submit-refused h req id url r e = rw (e, handle_submit_init) refl

submit-unsigned :
    (h : Handler) (req : PendingSubmit) (id : String)
    → check_request req ≡ none
    → handle_submit_init h (some req) id none ≡ (h, internal_error)
unfolding handle_submit_init
submit-unsigned h req id e = rw (e, handle_submit_init) refl

submit-signed :
    (h : Handler) (req : PendingSubmit) (id u : String)
    → check_request req ≡ none
    → handle_submit_init h (some req) id (some u)
      ≡ (record h { pending = insert id req h.pending }, init_accepted id u (artifact_key id))
unfolding handle_submit_init
submit-signed h req id u e = rw (e, handle_submit_init) refl

signed-IsChecked :
    (s : Service) (req : PendingSubmit) (id : String) (url : Option String)
    → check_request req ≡ none
    → IsChecked s
    → IsChecked (record s { handler = (handle_submit_init s.handler (some req) id url).0 })
signed-IsChecked s req id none ok h =
    rw (submit-unsigned s.handler req id ok)
      (record { pending = h.pending; started = h.started; sent = h.sent; published = h.published })
signed-IsChecked s req id (some u) ok h = rw (submit-signed s.handler req id u ok) (record {
  pending = λ j p at. elim (Bool-cases (str_eq id j)) [
    | inl same ↦
        let eq : req ≡ p = ground (arith, lookup-insert id j req s.handler.pending) in
        subst (λ (q : PendingSubmit). IsValid q.language q.team_name) eq
          (check_request-IsValid req ok)
    | inr other ↦ h.pending j p (ground (arith, lookup-insert id j req s.handler.pending))
  ];
  started = h.started;
  sent = h.sent;
  published = h.published;
})

inits-IsChecked :
    (s : Service) (req : Option PendingSubmit) (id : String) (url : Option String)
    → IsChecked s
    → IsChecked (act s (inits req id url))
unfolding act handle_submit_init
inits-IsChecked s none id url h = record {
  pending = h.pending;
  started = h.started;
  sent = h.sent;
  published = h.published;
}
inits-IsChecked s (some req) id url h = elim (Option-cases (check_request req)) [
  | inr (r, e) ↦
      rw (submit-refused s.handler req id url r e) (record {
        pending = h.pending;
        started = h.started;
        sent = h.sent;
        published = h.published;
      })
  | inl ok ↦ signed-IsChecked s req id url ok h
]

-- The event that a confirmation publishes.
abbrev pub event_of : String → PendingSubmit → SubmissionCreatedEvent
event_of id p = record {
  submission_id = id;
  language = p.language;
  team_name = p.team_name;
  artifact_path = artifact_key id;
}

load_pending-empty :
    (h : Handler) (id : String) → str_eq id "" ≡ true → load_pending h id ≡ replied id_required
unfolding load_pending
load_pending-empty h id e = simp e refl

load_pending-absent :
    (h : Handler) (id : String)
    → str_eq id "" ≡ false
    → lookup id h.pending ≡ none
    → load_pending h id ≡ replied not_found
unfolding load_pending
load_pending-absent h id e absent = simp e (simp absent refl)

load_pending-found :
    (h : Handler) (id : String) (p : PendingSubmit)
    → str_eq id "" ≡ false
    → lookup id h.pending ≡ some p
    → load_pending h id ≡ to_publish (event_of id p)
unfolding load_pending
load_pending-found h id p e found = simp e (simp found refl)

loads-IsChecked : (s : Service) (id : String) → IsChecked s → IsChecked (act s (loads id))
unfolding act
loads-IsChecked s id h = elim (Bool-cases (str_eq id "")) [
  | inl empty ↦ rw (load_pending-empty s.handler id empty, act) h
  | inr named ↦ elim (Option-cases (lookup id s.handler.pending)) [
    | inl absent ↦ rw (load_pending-absent s.handler id named absent, act) h
    | inr (p, found) ↦
        rw (load_pending-found s.handler id p named found, act)
          (record {
            pending = h.pending;
            started = (record { valid = h.pending id p found; path = refl }, h.started);
            sent = h.sent;
            published = h.published;
          })
  ]
]

-- What is picked from checked events, and what is left of them, is checked.
Picked : Option (SubmissionCreatedEvent × List SubmissionCreatedEvent) → Type 0
Picked none = Unit {0}
Picked (some (e, es)) = IsCheckedEvent e × All IsCheckedEvent es

abbrev put_first :
    SubmissionCreatedEvent
    → Option (SubmissionCreatedEvent × List SubmissionCreatedEvent)
    → Option (SubmissionCreatedEvent × List SubmissionCreatedEvent)
put_first e none = none
put_first e (some (y, ys)) = some (y, e ∷ ys)

Picked-put_first :
    (e : SubmissionCreatedEvent) (o : Option (SubmissionCreatedEvent × List SubmissionCreatedEvent))
    → IsCheckedEvent e
    → Picked o
    → Picked (put_first e o)
unfolding Picked
Picked-put_first e none h k = k
Picked-put_first e (some (y, ys)) h k = (k.0, (h, k.1))

pick-Picked :
    (n : ℕ) (es : List SubmissionCreatedEvent) → All IsCheckedEvent es → Picked (pick n es)
unfolding pick Picked
pick-Picked n [] h = tt
pick-Picked zero (e ∷ es) h = h
pick-Picked (suc n) (e ∷ es) h = Picked-put_first e (pick n es) h.0 (pick-Picked n es h.1)

publishes-IsChecked :
    (s : Service) (ok : Bool) (o : Option (SubmissionCreatedEvent × List SubmissionCreatedEvent))
    → Picked o
    → IsChecked s
    → IsChecked (publish_picked s ok o)
unfolding publish_picked publish_event Picked
publishes-IsChecked s ok none k h = h
publishes-IsChecked s true (some (e, es)) k h = record {
  pending = h.pending;
  started = k.1;
  sent = (k.0, h.sent);
  published = (k.0, h.published);
}
publishes-IsChecked s false (some (e, es)) k h = record {
  pending = h.pending;
  started = k.1;
  sent = h.sent;
  published = h.published;
}

deletes-IsChecked :
    (s : Service) (o : Option (SubmissionCreatedEvent × List SubmissionCreatedEvent))
    → Picked o
    → IsChecked s
    → IsChecked (delete_picked s o)
unfolding delete_picked delete_pending Picked
deletes-IsChecked s none k h = h
deletes-IsChecked s (some (e, es)) k h = record {
  pending =
      λ id p at. h.pending id p (lookup-delete-some e.submission_id id s.handler.pending at).1;
  started = h.started;
  sent = k.1;
  published = h.published;
}

act-IsChecked : (s : Service) (a : Action) → IsChecked s → IsChecked (act s a)
unfolding act
act-IsChecked s (inits req id url) h = inits-IsChecked s req id url h
act-IsChecked s (loads id) h = loads-IsChecked s id h
act-IsChecked s (publishes n ok) h =
    publishes-IsChecked s ok _ (pick-Picked n s.started h.started) h
act-IsChecked s (deletes n) h = deletes-IsChecked s _ (pick-Picked n s.sent h.sent) h

-- However the requests interleave, what is pending and what is published has an allowed language
-- and a team name of 1 to 64 allowed characters, and names its own artifact.
pub act_all-IsChecked :
    (s : Service) (acts : List Action) → IsChecked s → IsChecked (act_all s acts)
unfolding act_all
act_all-IsChecked s [] h = h
act_all-IsChecked s (a ∷ acts) h = act_all-IsChecked (act s a) acts (act-IsChecked s a h)

-- A confirmation of a pending submission that the broker takes is accepted and publishes one event, with
-- the language and the team name of the request and the path of its artifact. It is final: a second one
-- that comes after it finds nothing and changes nothing. One that the broker refuses is an error, changes
-- nothing, and can be repeated.
pub handle_confirm-final :
    (h : Handler) (id : String) (p : PendingSubmit) (again : Bool)
    → str_eq id "" ≡ false
    → lookup id h.pending ≡ some p
    → let r = handle_confirm h id true in
      (r.1 ≡ confirm_accepted id)
      × (r.0.published ≡ event_of id p ∷ h.published)
      × (handle_confirm r.0 id again ≡ (r.0, not_found))
      × (handle_confirm h id false ≡ (h, internal_error))
unfolding handle_confirm finish_confirm publish_event delete_pending
handle_confirm-final h id p again named found =
    let loaded = load_pending-found h id p named found in
    let after = (finish_confirm h (event_of id p) true).0 in
    let gone : lookup id (delete id h.pending) ≡ none =
      ground (arith, lookup-delete id id h.pending, str_eq_iff id id) in
    let first : (sent : Bool) → handle_confirm h id sent ≡ finish_confirm h (event_of id p) sent =
      λ sent. rw (loaded, handle_confirm) refl in
    let second : handle_confirm after id again ≡ (after, not_found) =
      rw (load_pending-absent after id named gone, handle_confirm) refl in
    (
      ap (λ (r : Handler × Reply). r.1) (first true),
      ap (λ (r : Handler × Reply). r.0.published) (first true),
      subst (λ r. handle_confirm r.0 id again ≡ (r.0, not_found)) (sym (first true)) second,
      first false,
    )
