-- ===== src/SubmissionApi.antt =====
-- services/submission-api/handler.go: the two requests that submit a program.
--
-- The storage's signing of an URL, the id that uuid.New makes and the broker are arguments. The map
-- `pending` is a sync.Map, so each of its operations is a step of its own: handleConfirm is two
-- steps, `load_pending` and `finish_confirm`, when nothing comes between, and three steps of a Service.
pub mod Checked
mod Tests
use Prim.Native.Char.{code}
use Prim.Native.String.{len}
use iicpc_sh.Prelude.{
  ℕ, zero, suc, Bool, true, false, not, ◌&&◌, ◌||◌, Option, none, some, List, [], ◌∷◌, String,
  str_eq, str_append, ltb, leb, ◌==◌, if◌then◌else◌,
}
use iicpc_sh.Prelude.Assoc.{lookup, insert, delete}

-- allowedLanguages
unfoldable pub allowed_language : String → Bool
allowed_language l =
    if str_eq l "cpp" then true else if str_eq l "rust" then true else str_eq l "go"

-- `[A-Za-z0-9_-]`
unfoldable pub is_name_char : ℕ → Bool
is_name_char c =
    leb b'A' c && leb c b'Z'
    || leb b'a' c && leb c b'z'
    || leb b'0' c && leb c b'9'
    || c == b'_'
    || c == b'-'

-- teamNameRe, on a name that is not empty.
unfoldable pub all_name_chars : String → Bool
unfolding is_name_char
all_name_chars String.[] = true
all_name_chars (String.◌∷◌ c s) = is_name_char (code c) && all_name_chars s

abbrev pub max_team_name_len : ℕ
max_team_name_len = 64

pub record PendingSubmit : Type 0 where
  pub language : String
  pub team_name : String

pub data Refusal : Type 0 where
  invalid_json unsupported_language team_name_required team_name_too_long invalid_characters :
      Refusal

pub data Reply : Type 0 where
  bad_request : Refusal → Reply
  internal_error id_required not_found : Reply
  init_accepted : (submission_id url artifact_key : String) → Reply
  confirm_accepted : String → Reply

-- Handler.pending, and the events published.
pub record SubmissionCreatedEvent : Type 0 where
  pub submission_id : String
  pub language : String
  pub team_name : String
  pub artifact_path : String

pub record Handler : Type 0 where
  pub pending : List (String × PendingSubmit)
  pub published : List SubmissionCreatedEvent

abbrev pub new_handler : Handler
new_handler = record { pending = []; published = [] }

abbrev pub artifact_key : String → String
artifact_key id = str_append "submissions/" (str_append id ".tar.gz")

-- The checks of handleSubmitInit in their order.
unfoldable pub check_request : PendingSubmit → Option Refusal
check_request req =
    if not (allowed_language req.language)
    then some unsupported_language
    else if str_eq req.team_name ""
    then some team_name_required
    else if ltb max_team_name_len (len req.team_name)
    then some team_name_too_long
    else if not (all_name_chars req.team_name)
    then some invalid_characters
    else none

-- handleSubmitInit. `request` is `none` if the body cannot be decoded, `id` is the new id, and `url`
-- is `none` if it could not be signed.
unfoldable pub handle_submit_init :
    Handler → Option PendingSubmit → (id : String) → Option String → Handler × Reply
handle_submit_init h none id url = (h, bad_request invalid_json)
handle_submit_init h (some req) id url =
    let signed : Handler × Reply = elim url [
      | none ↦ (h, internal_error)
      | some u ↦
          (record h { pending = insert id req h.pending }, init_accepted id u (artifact_key id))
    ] in
    elim (check_request req) [ some refusal ↦ (h, bad_request refusal) | none ↦ signed ]

-- handleConfirm up to its publication: a reply, or the event to publish.
pub data Loaded : Type 0 where
  replied : Reply → Loaded
  to_publish : SubmissionCreatedEvent → Loaded

unfoldable pub load_pending : Handler → String → Loaded
load_pending h id =
    let found : Loaded = elim (lookup id h.pending) [
      | none ↦ replied not_found
      | some p ↦ to_publish (record {
        submission_id = id;
        language = p.language;
        team_name = p.team_name;
        artifact_path = artifact_key id;
      })
    ] in
    if str_eq id "" then replied id_required else found

-- What a publication and the deletion after it change.
unfoldable pub publish_event : Handler → SubmissionCreatedEvent → Handler
publish_event h e = record h { published = e ∷ h.published }

unfoldable pub delete_pending : Handler → String → Handler
delete_pending h id = record h { pending = delete id h.pending }

-- The publication, if the broker takes it, and the rest of handleConfirm.
unfoldable pub finish_confirm : Handler → SubmissionCreatedEvent → Bool → Handler × Reply
finish_confirm h e sent =
    let done : Handler × Reply =
      (delete_pending (publish_event h e) e.submission_id, confirm_accepted e.submission_id) in
    if sent then done else (h, internal_error)

-- handleConfirm as one step, when no other request comes between.
unfoldable pub handle_confirm : Handler → String → Bool → Handler × Reply
handle_confirm h id sent = elim (load_pending h id) [
  | replied r ↦ (h, r)
  | to_publish e ↦ finish_confirm h e sent
]

-- The element at an index and the list without it.
unfoldable pub pick {ℓ} : {A : Type ℓ} → ℕ → List A → Option (A × List A)
pick n [] = none
pick zero (x ∷ xs) = some (x, xs)
pick (suc n) (x ∷ xs) = elim (pick n xs) [ none ↦ none | some (y, ys) ↦ some (y, x ∷ ys) ]

-- The requests to the service. The operations of a confirmation on the map and the broker are steps of
-- their own: it loads the submission, publishes it, and deletes it, and other actions lie between.
-- `started` holds the events that are still to be published, and `sent` those that are published and
-- still to be deleted; the confirmation that goes on is any of them.
pub data Action : Type 0 where
  inits : Option PendingSubmit → (id : String) → Option String → Action
  loads : String → Action
  publishes : ℕ → Bool → Action
  deletes : ℕ → Action

pub record Service : Type 0 where
  pub handler : Handler
  pub started : List SubmissionCreatedEvent
  pub sent : List SubmissionCreatedEvent

unfoldable pub publish_picked :
    Service → Bool → Option (SubmissionCreatedEvent × List SubmissionCreatedEvent) → Service
publish_picked s ok none = s
publish_picked s true (some (e, es)) = record {
  handler = publish_event s.handler e;
  started = es;
  sent = e ∷ s.sent;
}
publish_picked s false (some (e, es)) = record s { started = es }

unfoldable pub delete_picked :
    Service → Option (SubmissionCreatedEvent × List SubmissionCreatedEvent) → Service
delete_picked s none = s
delete_picked s (some (e, es)) = record s {
  handler = delete_pending s.handler e.submission_id;
  sent = es;
}

unfoldable pub act : Service → Action → Service
act s (inits req id url) = record s { handler = (handle_submit_init s.handler req id url).0 }
act s (loads id) = elim (load_pending s.handler id) [
  | replied r ↦ s
  | to_publish e ↦ record s { started = e ∷ s.started }
]
act s (publishes n ok) = publish_picked s ok (pick n s.started)
act s (deletes n) = delete_picked s (pick n s.sent)

unfoldable pub act_all : Service → List Action → Service
act_all s [] = s
act_all s (a ∷ rest) = act_all (act s a) rest
