-- ===== src/SubmissionApi/Tests.antt =====
-- Submissions on concrete inputs.
use iicpc_sh.Prelude.{false, ◌≡◌, refl, arith, true, some, List, [], ◌∷◌, length}
use iicpc_sh.Prelude.Assoc.{lookup, insert, delete}
use iicpc_sh.SubmissionApi.{
  Handler, new_handler, Service, Action, inits, loads, publishes, deletes, confirm_accepted, pick,
  publish_picked, delete_picked, publish_event, delete_pending, act_all, handle_confirm, not_found,
  internal_error, PendingSubmit, act, handle_submit_init, check_request, allowed_language,
  all_name_chars, is_name_char, load_pending,
}
use iicpc_sh.SubmissionApi.Checked.{event_of, IsChecked, act_all-IsChecked, handle_confirm-final}

abbrev new_service : Service
new_service = record { handler = new_handler; started = []; sent = [] }

new_service-IsChecked : IsChecked new_service
unfolding lookup
new_service-IsChecked = record {
  pending = λ id p at. absurd (ground arith);
  started = record {};
  sent = record {};
  published = record {};
}

abbrev request : PendingSubmit
request = record { language = "go"; team_name = "team_1" }

-- A submission that two requests confirm at the same time.
abbrev twice : List Action
twice =
    inits (some request) "42" (some "url")
    ∷ loads "42"
    ∷ loads "42"
    ∷ publishes 1 true
    ∷ publishes 0 true
    ∷ deletes 1
    ∷ deletes 0
    ∷ []

act_all-IsChecked_example : IsChecked (act_all new_service twice)
act_all-IsChecked_example = act_all-IsChecked new_service twice new_service-IsChecked

-- Both confirmations publish the submission.
twice-published : length (act_all new_service twice).handler.published ≡ 2
unfolding act_all act handle_submit_init check_request allowed_language all_name_chars is_name_char
    load_pending publish_picked delete_picked publish_event delete_pending pick lookup insert delete
twice-published = refl

abbrev one_pending : Handler
one_pending = record { pending = ("42", request) ∷ []; published = [] }

request-found : lookup "42" one_pending.pending ≡ some request
unfolding lookup
request-found = refl

handle_confirm-final_example :
    let r = handle_confirm one_pending "42" true in
    (r.1 ≡ confirm_accepted "42")
    × (r.0.published ≡ event_of "42" request ∷ [])
    × (handle_confirm r.0 "42" true ≡ (r.0, not_found))
    × (handle_confirm one_pending "42" false ≡ (one_pending, internal_error))
handle_confirm-final_example = handle_confirm-final one_pending "42" request true refl request-found
