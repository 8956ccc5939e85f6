-- ===== src/BuildService/Tests.antt =====
-- Builds and logs on concrete inputs.
use iicpc_sh.Prelude.{
  Bool, not, ℕ, ◌≡◌, refl, arith, true, false, none, some, List, [], ◌∷◌, str_eq, inl, inr, ◌⊎◌,
}
use iicpc_sh.BuildService.Truncate.{IsLongest, truncate, truncate-IsLongest}
use iicpc_sh.BuildService.Logs.{ends_open, read_log}
use iicpc_sh.BuildService.Logs.Bounded.{straddles, read_log-Bounded}
use iicpc_sh.BuildService.Build.{
  binary_path, World, SubmissionCreatedEvent, build, pod_in, running, succeeded, handle_record,
  committed, stopped, binary_path, build_complete_event, BuildError,
}
use iicpc_sh.BuildService.Build.Cleanup.{Lifecycle, build-Lifecycle, handle_record-published}

-- A log of five bytes in two chunks, and room for four.
abbrev chunks : List (List ℕ)
chunks = (1 ∷ 2 ∷ 3 ∷ []) ∷ (4 ∷ 5 ∷ []) ∷ []

chunks-straddle : straddles 4 0 chunks ≡ true
unfolding straddles
chunks-straddle = refl

read_log-Bounded_example : read_log (λ s. true) 4 chunks ≡ none
read_log-Bounded_example = (read_log-Bounded (λ s. true) 4 chunks).0 chunks-straddle

abbrev submission : SubmissionCreatedEvent
submission = record {
  event = "submission.created";
  submission_id = "42";
  language = "go";
  artifact_path = "submissions/42.tar.gz";
  team_name = "team";
}

abbrev world : World
world = record {
  source_url = some "get";
  upload_url = some "put";
  created = true;
  seconds_since_creation = 45;
  deletion_accepted = true;
  watcher = some (pod_in running ∷ pod_in succeeded ∷ []);
  statuses = none;
  stream = λ container. none;
  valid_utf8 = λ s. true;
  failed_published = true;
  complete_published = true;
}

build-Lifecycle_example : Lifecycle world "42" (build world 4096 submission)
build-Lifecycle_example = build-Lifecycle world 4096 submission

submission-created : str_eq "submission.created" "submission.created" ≡ true
submission-created = refl

handle_record-published_example :
    (((err : BuildError) × ((build world 4096 submission).0 ≡ inl err))
        × ((handle_record world 4096 (some submission)).0 ≡ committed)
      ⊎ ((build world 4096 submission).0 ≡ inr (binary_path "42"))
        × ((world.complete_published ≡ false)
              × (handle_record world 4096 (some submission) ≡ (stopped, []))
            ⊎ (world.complete_published ≡ true)
              × (handle_record world 4096 (some submission)
                  ≡ (committed, build_complete_event "42" (binary_path "42") "go" "team" ∷ []))))
handle_record-published_example = handle_record-published world 4096 submission submission-created

-- A rune of two bytes at the end, of which the second is over the limit.
abbrev valid_end : List ℕ → Bool
valid_end s = not (ends_open s)

valid_end-empty : valid_end [] ≡ true
unfolding ends_open
valid_end-empty = refl

abbrev accented : List ℕ
accented = 99 ∷ 97 ∷ 195 ∷ 169 ∷ []

truncate-IsLongest_example : IsLongest valid_end accented 3 (truncate valid_end accented 3)
truncate-IsLongest_example = truncate-IsLongest valid_end valid_end-empty accented 3 (omega arith)
