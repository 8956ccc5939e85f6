-- ===== src/Leaderboard/Tests.antt =====
-- The hub and the entries on concrete inputs.
use iicpc_sh.Prelude.{
  ℕ, ◌≡◌, ◌/◌, refl, arith, String, true, false, none, some, Option, List, [], ◌∷◌,
}
use iicpc_sh.Leaderboard.Hub.{
  Hub, Event, new_hub, connects, disconnects, reg_taken, unreg_taken, broadcasts, msg_taken,
  snapshots, steps, step, connect, disconnect, take_reg, take_unreg, put,
}
use iicpc_sh.Leaderboard.Hub.Placed.{count}
use iicpc_sh.Leaderboard.Hub.Closed.{IsSafe, steps-IsSafe, new_hub-IsValid}
use iicpc_sh.Leaderboard.Hub.Missed.{IsMissed, StaysMissed, steps-StaysMissed}
use iicpc_sh.Leaderboard.Entries.{
  Entry, Member, handler_entries, snapshot_entries, snapshot_entries-handler,
}

-- A client comes, gets a snapshot and a message, and leaves.
abbrev visit : List Event
visit =
    connects
    ∷ snapshots 0 5
    ∷ reg_taken
    ∷ broadcasts 6
    ∷ msg_taken
    ∷ disconnects 0
    ∷ unreg_taken
    ∷ []

steps-IsSafe_example : IsSafe (steps new_hub visit)
steps-IsSafe_example = steps-IsSafe new_hub visit new_hub-IsValid

-- A client that leaves before the hub has registered it, when the hub takes its leave first.
abbrev early : List Event
early = connects ∷ disconnects 0 ∷ unreg_taken ∷ reg_taken ∷ []

abbrev missed_hub : Hub
missed_hub = record new_hub {
  clients = put (λ c. false) 0 true;
  live = put (put (λ c. false) 0 true) 0 false;
  next = 1;
}

early-missed_hub : steps new_hub early ≡ some missed_hub
unfolding steps step connect disconnect take_unreg take_reg
early-missed_hub = refl

missed_hub-IsMissed : IsMissed missed_hub 0
unfolding count
missed_hub-IsMissed = record { ended = refl; unheard = refl; kept = omega arith; old = omega arith }

steps-StaysMissed_example : StaysMissed (steps missed_hub visit) 0
steps-StaysMissed_example = steps-StaysMissed missed_hub visit 0 missed_hub-IsMissed

abbrev per_mille : ℕ → ℕ
per_mille n = n / 1000

abbrev members : List (Member per_mille)
members =
    record { name = some "42"; score_of = 900 }
    ∷ record { name = none; score_of = 800 }
    ∷ record { name = some "43:team"; score_of = 700 }
    ∷ []

abbrev no_details : String → Option ℕ
no_details id = none

abbrev no_entry : ℕ → Option (Entry per_mille ℕ)
no_entry blob = none

snapshot_entries-handler_example :
    snapshot_entries per_mille no_details no_entry members
    ≡ some (handler_entries per_mille no_details no_entry 0 members)
snapshot_entries-handler_example = snapshot_entries-handler per_mille no_details no_entry members
