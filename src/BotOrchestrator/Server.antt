-- ===== src/BotOrchestrator/Server.antt =====
-- services/bot-orchestrator/main.go: the requests and the events that start tests, and activeTests.
--
-- A test runs in a goroutine of its own. `running` lists the submissions of the goroutines that are
-- between their first and their last use of activeTests; a step is what a goroutine does while it
-- holds the mutex, so that a list of steps is an interleaving.
use iicpc_sh.Prelude.{
  ℕ, zero, suc, ◌+◌, ◌≡◌, ◌≤◌, ◌↔◌, refl, arith, inl, inr, Bool, true, false, Option, none, some,
  List, [], ◌∷◌, String, str_eq, str_eq_iff, if◌then◌else◌, Bool-cases, Option-cases, ltb, length,
  ℤ, pos, eqb_ℤ,
}
use iicpc_sh.Prelude.Assoc.{lookup, insert, delete, lookup-insert, lookup-delete}

-- The body of a request; fields that are missing are "" and 0.
pub record SandboxReadyEvent : Type 0 where
  pub submission_id : String
  pub pod_ip : String
  pub ws_port : ℤ
  pub team_name : String

-- The defaults of runHandler.
unfoldable pub with_defaults : SandboxReadyEvent → SandboxReadyEvent
with_defaults e = record {
  submission_id = if str_eq e.submission_id "" then "manual-run" else e.submission_id;
  pod_ip = if str_eq e.pod_ip "" then "submission-api.platform.svc.cluster.local" else e.pod_ip;
  ws_port = if eqb_ℤ e.ws_port (pos 0) then pos 8080 else e.ws_port;
  team_name = if str_eq e.team_name "" then "manual-team" else e.team_name;
}

pub record Server : Type 0 where
  pub active_tests : List (String × Bool)
  pub running : List String

-- `s.activeTests[id]`
abbrev pub is_active : Server → String → Bool
is_active s id = elim (lookup id s.active_tests) [ none ↦ false | some b ↦ b ]

-- Both callers' test and set of activeTests: the test starts, or it is refused.
unfoldable pub try_start : Server → String → Server × Bool
try_start s id =
    let started : Server = record {
      active_tests = insert id true s.active_tests;
      running = id ∷ s.running;
    } in
    if is_active s id then (s, false) else (started, true)

pub data Status : Type 0 where
  method_not_allowed bad_request conflict accepted : Status

-- runHandler; the body is `none` if it cannot be decoded.
unfoldable pub run_handler : Server → Bool → Option SandboxReadyEvent → Server × Status
unfolding with_defaults
run_handler s is_post none = (s, if is_post then bad_request else method_not_allowed)
run_handler s is_post (some e) =
    let (s', started) = try_start s (with_defaults e).submission_id in
    let answered : Server × Status = (s', if started then accepted else conflict) in
    if is_post then answered else (s, method_not_allowed)

-- The handler that the consumer calls for sandbox.ready.
unfoldable pub on_ready : Server → SandboxReadyEvent → Server
on_ready s e = (try_start s e.submission_id).0

-- The deferred function of the k-th goroutine, at its end or after a panic.
unfoldable pub remove_at : ℕ → List String → List String
remove_at k [] = []
remove_at zero (id ∷ ids) = ids
remove_at (suc k) (id ∷ ids) = id ∷ remove_at k ids

unfoldable pub at : ℕ → List String → Option String
at k [] = none
at zero (id ∷ ids) = some id
at (suc k) (id ∷ ids) = at k ids

unfoldable pub finish : Server → ℕ → Server
finish s k = elim (at k s.running) [
  | none ↦ s
  | some id ↦ record { active_tests = delete id s.active_tests; running = remove_at k s.running }
]

-- statusHandler: "running" if the map is not empty.
unfoldable pub status_running : Server → Bool
status_running s = ltb 0 (length s.active_tests)

pub data Event : Type 0 where
  requested : Bool → Option SandboxReadyEvent → Event
  sandbox_ready : SandboxReadyEvent → Event
  finished : ℕ → Event

unfoldable pub step : Server → Event → Server
step s (requested is_post body) = (run_handler s is_post body).0
step s (sandbox_ready e) = on_ready s e
step s (finished k) = finish s k

unfoldable pub steps : Server → List Event → Server
steps s [] = s
steps s (e ∷ es) = steps (step s e) es

abbrev pub new_server : Server
new_server = record { active_tests = []; running = [] }

-- The number of goroutines that test a submission.
unfoldable pub count : String → List String → ℕ
count id [] = 0
count id (j ∷ ids) = (if str_eq j id then 1 else 0) + count id ids

-- A submission is marked as active while exactly one goroutine tests it, and not otherwise.
pub record IsExclusive (s : Server) : Type 0 where
  pub one : (id : String) → count id s.running ≡ (if is_active s id then 1 else 0)

insert-active :
    (s : Server) (id j : String)
    → is_active
        (record { active_tests = insert id true s.active_tests; running = id ∷ s.running })
        j
      ≡ (if str_eq id j then true else is_active s j)
insert-active s id j = ground (arith, lookup-insert id j true s.active_tests)

delete-active :
    (s : Server) (id j : String) (ids : List String)
    → is_active (record { active_tests = delete id s.active_tests; running = ids }) j
      ≡ (if str_eq id j then false else is_active s j)
delete-active s id j ids = ground (arith, lookup-delete id j s.active_tests)

try_start-IsExclusive : (s : Server) (id : String) → IsExclusive s → IsExclusive (try_start s id).0
unfolding try_start count
try_start-IsExclusive s id h = elim (Bool-cases (is_active s id)) [
  | inl busy ↦ simp busy h
  | inr free ↦ simp free (record {
    one =
        λ j. let was = h.one j in let now = insert-active s id j in ground (arith, str_eq_iff id j);
  })
]

count-remove_at :
    (k : ℕ) (ids : List String) (id j : String)
    → at k ids ≡ some id
    → count j (remove_at k ids) + (if str_eq id j then 1 else 0) ≡ count j ids
unfolding at remove_at count
count-remove_at k [] id j h = absurd (ground arith)
count-remove_at zero (i ∷ ids) id j h = ground arith
count-remove_at (suc k) (i ∷ ids) id j h = let rest = count-remove_at k ids id j h in ground arith

finish-IsExclusive : (s : Server) (k : ℕ) → IsExclusive s → IsExclusive (finish s k)
unfolding finish
finish-IsExclusive s k h = elim (Option-cases (at k s.running)) [
  | inl absent ↦ rw (absent, finish) h
  | inr (id, found) ↦
      rw (found, finish)
        (record {
          one = λ j.
              let was = h.one j in
              let left = count-remove_at k s.running id j found in
              let now = delete-active s id j (remove_at k s.running) in
              ground (arith, str_eq_iff id j);
        })
]

step-IsExclusive : (s : Server) (e : Event) → IsExclusive s → IsExclusive (step s e)
unfolding step run_handler on_ready
step-IsExclusive s (requested true none) h = h
step-IsExclusive s (requested false none) h = h
step-IsExclusive s (requested true (some e)) h = try_start-IsExclusive s _ h
step-IsExclusive s (requested false (some e)) h = h
step-IsExclusive s (sandbox_ready e) h = try_start-IsExclusive s e.submission_id h
step-IsExclusive s (finished k) h = finish-IsExclusive s k h

steps-IsExclusive : (s : Server) (es : List Event) → IsExclusive s → IsExclusive (steps s es)
unfolding steps
steps-IsExclusive s [] h = h
steps-IsExclusive s (e ∷ es) h = steps-IsExclusive (step s e) es (step-IsExclusive s e h)

-- However requests, events of the broker and ends of tests interleave, at most one test of a
-- submission runs at a time, and it runs if and only if the submission is active.
pub steps-exclusive :
    (es : List Event) (id : String)
    → (count id (steps new_server es).running ≤ 1)
      × (is_active (steps new_server es) id ≡ true ↔ count id (steps new_server es).running ≡ 1)
unfolding lookup count
steps-exclusive es id =
    let h = (steps-IsExclusive new_server es (record { one = λ j. refl })).one id in
    elim (Bool-cases (is_active (steps new_server es) id)) [
      | inl busy ↦ ground arith
      | inr free ↦ ground arith
    ]
