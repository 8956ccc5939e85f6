-- ===== src/Ingester/Tests.antt =====
-- The buffer on concrete inputs.
use iicpc_sh.Prelude.{
  suc, map, Bool-cases, inl, inr, str_eq, ap, Bool, if◌then◌else◌, ◌%◌, ◌≢◌, Option, none, some,
  String, str_eq_iff, ℕ, ◌≡◌, ◌+◌, refl, arith, true, false, List, [], ◌∷◌, ◌++◌, ◌==◌,
}
use iicpc_sh.Prelude.Assoc.{lookup}
use iicpc_sh.Leaderboard.Entries.{Member, Entry, split_colon, handler_entries}
use iicpc_sh.Ingester.Leaderboard.{
  Lists, Store, Update, entry_for, update_leaderboard, update_all, Shows, update_all-Shows,
}
use iicpc_sh.Ingester.Connect.{
  RedisAttempt, redis_answers, redis_fails, PostgresAttempt, pool_answers, pool_fails, goes_on,
  new_ingester as start_ingester, Leaves, new_ingester-Leaves,
}
use iicpc_sh.Ingester.{Outcome, close, new_ingester, Action, arrives, flushes, act_all}
use iicpc_sh.Ingester.Consumer.{
  Step, polls, flushes as flushes_in, steps, new_service, poll, restart, polled, accepted,
  restart-lost,
}
use iicpc_sh.Ingester.Conserved.{
  batches, contents, arrived, act_all-contents, IsOver, written, close-lost,
}

abbrev score : ℕ → ℕ
score e = e + 1

-- The second attempt writes.
abbrev second : Outcome
second = record { exec = λ a j. a == 1; is_done = λ a. false }

-- No attempt writes, and the context is done.
abbrev shut_down : Outcome
shut_down = record { exec = λ a j. false; is_done = λ a. true }

abbrev actions : List (Action score)
actions = arrives 7 ∷ arrives 8 ∷ flushes second ∷ arrives 9 ∷ flushes shut_down ∷ []

act_all-contents_example :
    contents score (act_all score (new_ingester score) actions)
    ≡ contents score (new_ingester score) ++ arrived score actions
act_all-contents_example = act_all-contents score (new_ingester score) actions

-- A poll of three records, of which one is no event and one no metrics, whose flush succeeds.
abbrev decoded : ℕ → Option ℕ
decoded n = if n == 0 then none else some n

abbrev is_even : ℕ → Bool
is_even n = n % 2 == 0

abbrev rounds : List (Step score decoded is_even)
rounds = polls (4 ∷ 0 ∷ 5 ∷ []) true ∷ flushes_in second ∷ polls (6 ∷ []) false ∷ []

restart-lost_example :
    let before = steps score decoded is_even (new_service score decoded is_even) rounds in
    let s = poll score decoded is_even before (8 ∷ []) true in
    ((restart score decoded is_even s).1 ≡ [])
    × (s.ingester.event_buffer
        ≡ before.ingester.event_buffer ++ accepted score decoded is_even (8 ∷ []))
    × (batches score (restart score decoded is_even s).0.ingester.flushed ++ s.ingester.event_buffer
        ≡ accepted score decoded is_even (polled score decoded is_even rounds ++ (8 ∷ [])))
restart-lost_example = restart-lost score decoded is_even rounds (8 ∷ [])

shut_down-IsOver : IsOver shut_down
shut_down-IsOver = record { fails = λ a j. refl; done = λ a. refl }

abbrev before_stop : List (Action score)
before_stop = arrives 7 ∷ flushes second ∷ arrives 8 ∷ []

close-lost_example :
    let i = act_all score (new_ingester score) before_stop in
    let c = close score i shut_down in
    (c.event_buffer ≡ [])
    × (written score c.flushed ≡ written score i.flushed)
    × (batches score c.flushed ≡ batches score i.flushed ++ i.event_buffer)
    × (batches score c.flushed ≡ arrived score before_stop)
close-lost_example = close-lost score before_stop shut_down shut_down-IsOver

-- A leaderboard with one update of "42", one of "7" after it, and a member without details between.
abbrev same_score : ℕ → ℕ
same_score n = n

abbrev Shown : Type 0
Shown = Entry same_score ℕ

abbrev encode : Shown → Option Shown
encode e = some e

abbrev empty_store : Store same_score same_score encode
empty_store = record { leaderboard = []; details = []; published = [] }

abbrev update : String → ℕ → Update same_score same_score encode
update id score = record { submission_id = id; team_name = "team"; score = score; metrics = 3 }

unsplit : (split_colon "42").0 ≡ "42"
unfolding split_colon
unsplit = refl

abbrev other_id : String
other_id = "7"

differs : other_id ≢ "42"
differs e = absurd (ground (arith, (str_eq_iff other_id "42").1 e))

-- The listing of a set in its order of insertion.
abbrev listing : List (String × ℕ) → List (Member same_score)
listing set = map (λ m. record { name = some m.0; score_of = m.1 }) set

listed :
    (set : List (String × ℕ)) (id : String) (z : ℕ)
    → lookup id set ≡ some z
    → (i : ℕ) × Lists same_score same_score encode (listing set) id z i
unfolding lookup
listed [] id z h = absurd (ground arith)
listed ((k, v) ∷ set) id z h = elim (Bool-cases (str_eq k id)) [
  | inl here ↦
      let key = (str_eq_iff k id).0 here in
      let value : v ≡ z = ground arith in
      (
        0,
        (
          [],
          (
            listing set,
            ((λ i. record { name = some (key i); score_of = value i } ∷ listing set), refl),
          ),
        ),
      )
  | inr other ↦
      let (i, (above, (below, (eq, place)))) = listed set id z (ground arith) in
      let first : Member same_score = record { name = some k; score_of = v } in
      (suc i, (first ∷ above, (below, (ap (λ ms. first ∷ ms) eq, ap suc place))))
]

update_all-Shows_example :
    let end =
      update_all same_score same_score encode
        (update_leaderboard same_score same_score encode empty_store (update "42" 80))
        (update "7" 90 ∷ []) in
    (i : ℕ) × (Lists same_score same_score encode (listing end.leaderboard) "42" 80 i
      × Shows same_score same_score encode encode
          (handler_entries same_score
            (λ id. lookup id end.details)
            encode
            0
            (listing end.leaderboard))
          (record (entry_for same_score same_score encode (update "42" 80)) { rank = i + 1 }))
update_all-Shows_example =
    update_all-Shows same_score same_score encode encode listing empty_store (update "42" 80)
      (update "7" 90 ∷ []) (entry_for same_score same_score encode (update "42" 80))
      (record { lists = listed }) refl refl unsplit (differs, tt)

-- Redis answers at its second ping, and the second pool of Postgres; the ceiling is refused.
abbrev redis_attempts : List RedisAttempt
redis_attempts = redis_fails goes_on ∷ redis_answers ∷ []

abbrev postgres_attempts : List PostgresAttempt
postgres_attempts = pool_fails goes_on ∷ pool_answers ∷ []

new_ingester-Leaves_example :
    let made = start_ingester redis_attempts postgres_attempts false in Leaves made.0 made.1
new_ingester-Leaves_example = new_ingester-Leaves redis_attempts postgres_attempts false
