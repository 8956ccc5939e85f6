-- ===== src/Leaderboard/Entries.antt =====
-- services/leaderboard-ws/main.go and hub.go: the entries of leaderboardHandler and of buildSnapshot.
--
-- The store is an argument: `details` is HGet of leaderboard_details, and `decode` is json.Unmarshal
-- into a leaderboardEntry. A member of the sorted set that is not a string is `none`. Scores are
-- another argument: `per_mille` is the division by 1000.
use Prim.Native.Char.{code}
use iicpc_sh.Prelude.{
  ℕ, suc, ◌+◌, ◌≡◌, refl, inl, inr, Option, none, some, List, [], ◌∷◌, ◌++◌, String, ◌==◌,
  if◌then◌else◌, Option-cases,
}

-- strings.SplitN(s, ":", 2): the part before the first colon, and the part after it if there is one.
unfoldable pub split_colon : String → String × Option String
split_colon String.[] = ("", none)
split_colon (String.◌∷◌ c s) =
    let (before, after) = split_colon s in
    let more : String × Option String = (String.◌∷◌ c before, after) in
    if code c == b':' then ("", some s) else more

abbrev pub or_empty : Option String → String
or_empty none = ""
or_empty (some t) = t

module _ {Score : Type 0} (per_mille : Score → Score) where
  -- The fields of a leaderboardEntry that the two functions set; the others are its `metrics`.
  pub record Entry (Metrics : Type 0) : Type 0 where
    pub submission_id : String
    pub team_name : String
    pub score : Score
    pub metrics : Option Metrics
    pub rank : ℕ

  pub record Member : Type 0 where
    pub name : Option String
    pub score_of : Score

  module _ {Metrics Blob : Type 0} (details : String → Option Blob)
      (decode : Blob → Option (Entry Metrics)) where
    -- The minimal record of a member without details.
    abbrev pub minimal : ℕ → Score → String → Entry Metrics
    minimal rank z member = record {
      submission_id = (split_colon member).0;
      team_name = or_empty (split_colon member).1;
      score = per_mille z;
      metrics = none;
      rank = rank;
    }

    -- What the details of a member give, or a record without them; an entry that cannot be decoded
    -- is left out.
    unfoldable pub entry_of : ℕ → Score → String → Option Blob → List (Entry Metrics)
    entry_of rank z member none = minimal rank z member ∷ []
    entry_of rank z member (some blob) = elim (decode blob) [
      | none ↦ []
      | some e ↦ record e { rank = rank } ∷ []
    ]

    -- The loop of leaderboardHandler from the member of index `i`.
    unfoldable pub handler_entries : ℕ → List Member → List (Entry Metrics)
    handler_entries i [] = []
    handler_entries i (z ∷ zs) =
        let rest = handler_entries (suc i) zs in
        elim z.name [
          | none ↦ rest
          | some m ↦ entry_of (i + 1) z.score_of m (details (split_colon m).0) ++ rest
        ]

    -- The first loop of buildSnapshot, which queues a command for each member; one that is not a
    -- string leaves a nil. What a command returns is read after the pipeline ran.
    unfoldable pub queue_commands : List Member → List (Option (Option Blob))
    queue_commands [] = []
    queue_commands (z ∷ zs) =
        let rest = queue_commands zs in
        elim z.name [ none ↦ none ∷ rest | some m ↦ some (details (split_colon m).0) ∷ rest ]

    -- The second loop. Reading a nil command would panic: the entries are then `none`.
    unfoldable pub read_entries :
        ℕ → List Member → List (Option (Option Blob)) → Option (List (Entry Metrics))
    read_entries i (z ∷ zs) (cmd ∷ cmds) =
        let rest = read_entries (suc i) zs cmds in
        elim z.name [
          | none ↦ rest
          | some m ↦ elim cmd [
            | none ↦ none
            | some blob ↦ elim rest [
              | none ↦ none
              | some es ↦ some (entry_of (i + 1) z.score_of m blob ++ es)
            ]
          ]
        ]
    read_entries i [] cmds = some []
    read_entries i (z ∷ zs) [] = none

    -- buildSnapshot
    unfoldable pub snapshot_entries : List Member → Option (List (Entry Metrics))
    snapshot_entries members = read_entries 0 members (queue_commands members)

    read_entries-handler :
        (i : ℕ) (zs : List Member)
        → read_entries i zs (queue_commands zs) ≡ some (handler_entries i zs)
    unfolding read_entries queue_commands handler_entries
    read_entries-handler i [] = refl
    read_entries-handler i (z ∷ zs) = elim (Option-cases z.name) [
      | inl other ↦ simp other (read_entries-handler (suc i) zs)
      | inr (m, named) ↦ simp named (simp (read_entries-handler (suc i) zs) refl)
    ]

    -- The snapshot of a new connection, with its two passes over the members, has the entries of the
    -- leaderboard's request on the same store, and reads no command that was not queued.
    pub snapshot_entries-handler :
        (members : List Member) → snapshot_entries members ≡ some (handler_entries 0 members)
    unfolding snapshot_entries
    snapshot_entries-handler members = read_entries-handler 0 members
