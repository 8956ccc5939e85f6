-- ===== src/Ingester/Leaderboard.antt =====
-- services/telemetry-ingester/ingester.go: updateLeaderboard and its script, and what the leaderboard
-- of services/leaderboard-ws/main.go then shows.
--
-- Redis is a store with the sorted set `leaderboard`, the hash `leaderboard_details` and the messages
-- published on `leaderboard_updates`; a script is one step. `times_1000` is the product with 1000, and
-- `encode` is json.Marshal, which refuses NaN and the infinities. What the entry has besides its ids and
-- its score is in `metrics`, the correctness and the time among it. An entry has no rank when it is
-- encoded, so its rank is decoded as 0.
use iicpc_sh.Prelude.{
  subst, ℕ, suc, ◌+◌, ◌≡◌, ◌≢◌, refl, ap, ◌∙◌, sym, arith, inl, inr, Option, none, some, List, [],
  ◌∷◌, ◌++◌, String, str_eq_iff, length, All, Option-cases,
}
use mathlib.Core.List.{append_assoc}
use iicpc_sh.Prelude.Assoc.{lookup, insert, lookup-insert}
use iicpc_sh.Leaderboard.Entries.{Entry, Member, split_colon, entry_of, handler_entries}

module _ {Score Metrics Blob : Type 0} (times_1000 per_mille : Score → Score)
    (encode : Entry per_mille Metrics → Option Blob) where
  pub record Store : Type 0 where
    pub leaderboard : List (String × Score)
    pub details : List (String × Blob)
    pub published : List Blob

  -- An event with its score.
  pub record Update : Type 0 where
    pub submission_id : String
    pub team_name : String
    pub score : Score
    pub metrics : Metrics

  abbrev pub entry_for : Update → Entry per_mille Metrics
  entry_for u = record {
    submission_id = u.submission_id;
    team_name = u.team_name;
    score = u.score;
    metrics = some u.metrics;
    rank = 0;
  }

  -- updateLeaderboardScript
  unfoldable pub run_script : Store → Score → String → Blob → Store
  run_script st score id payload = record {
    leaderboard = insert id score st.leaderboard;
    details = insert id payload st.details;
    published = st.published ++ (payload ∷ []);
  }

  -- updateLeaderboard after json.Marshal; `none` is its error.
  unfoldable pub store_payload : Store → Update → Option Blob → Store
  unfolding run_script
  store_payload st u none = st
  store_payload st u (some payload) = run_script st (times_1000 u.score) u.submission_id payload

  -- (*Ingester).updateLeaderboard
  unfoldable pub update_leaderboard : Store → Update → Store
  update_leaderboard st u = store_payload st u (encode (entry_for u))

  unfoldable pub update_all : Store → List Update → Store
  update_all st [] = st
  update_all st (u ∷ us) = update_all (update_leaderboard st u) us

  stored :
      (st : Store) (u : Update) (blob : Blob)
      → lookup u.submission_id (store_payload st u (some blob)).details ≡ some blob
  unfolding store_payload run_script
  stored st u blob = ground (
    arith,
    lookup-insert u.submission_id u.submission_id blob st.details,
    str_eq_iff u.submission_id u.submission_id,
  )

  update-details :
      (st : Store) (u : Update) (blob : Blob)
      → encode (entry_for u) ≡ some blob
      → lookup u.submission_id (update_leaderboard st u).details ≡ some blob
  unfolding update_leaderboard
  update-details st u blob e =
      ap (λ o. lookup u.submission_id (store_payload st u o).details) e ∙ stored st u blob

  stored-other :
      (st : Store) (u : Update) (o : Option Blob) (id : String)
      → u.submission_id ≢ id
      → lookup id (store_payload st u o).details ≡ lookup id st.details
  unfolding store_payload run_script
  stored-other st u none id ne = refl
  stored-other st u (some blob) id ne =
      ground
        (arith, lookup-insert u.submission_id id blob st.details, str_eq_iff u.submission_id id)

  update_all-other :
      (st : Store) (us : List Update) (id : String)
      → All (λ (v : Update). v.submission_id ≢ id) us
      → lookup id (update_all st us).details ≡ lookup id st.details
  unfolding update_all update_leaderboard
  update_all-other st [] id h = refl
  update_all-other st (v ∷ vs) id h =
      update_all-other (update_leaderboard st v) vs id h.1 ∙ stored-other st v _ id h.0

  stored-board :
      (st : Store) (u : Update) (blob : Blob)
      → lookup u.submission_id (store_payload st u (some blob)).leaderboard
        ≡ some (times_1000 u.score)
  unfolding store_payload run_script
  stored-board st u blob = ground (
    arith,
    lookup-insert u.submission_id u.submission_id (times_1000 u.score) st.leaderboard,
    str_eq_iff u.submission_id u.submission_id,
  )

  update-board :
      (st : Store) (u : Update) (blob : Blob)
      → encode (entry_for u) ≡ some blob
      → lookup u.submission_id (update_leaderboard st u).leaderboard ≡ some (times_1000 u.score)
  unfolding update_leaderboard
  update-board st u blob e =
      ap (λ o. lookup u.submission_id (store_payload st u o).leaderboard) e ∙ stored-board st u blob

  stored_other-board :
      (st : Store) (u : Update) (o : Option Blob) (id : String)
      → u.submission_id ≢ id
      → lookup id (store_payload st u o).leaderboard ≡ lookup id st.leaderboard
  unfolding store_payload run_script
  stored_other-board st u none id ne = refl
  stored_other-board st u (some blob) id ne = ground (
    arith,
    lookup-insert u.submission_id id (times_1000 u.score) st.leaderboard,
    str_eq_iff u.submission_id id,
  )

  update_all-board :
      (st : Store) (us : List Update) (id : String)
      → All (λ (v : Update). v.submission_id ≢ id) us
      → lookup id (update_all st us).leaderboard ≡ lookup id st.leaderboard
  unfolding update_all update_leaderboard
  update_all-board st [] id h = refl
  update_all-board st (v ∷ vs) id h =
      update_all-board (update_leaderboard st v) vs id h.1 ∙ stored_other-board st v _ id h.0

  abbrev pub member : String → Score → Member per_mille
  member id z = record { name = some id; score_of = z }

  -- A member of a sorted set stands in its listing, with its score.
  abbrev pub Lists : List (Member per_mille) → String → Score → ℕ → Type 0
  Lists ms id z i =
      (above : List (Member per_mille)) × ((below : List (Member per_mille)) × ((ms
            ≡ above ++ (member id z ∷ below))
          × (length above ≡ i)))

  -- What ZREVRANGE gives: each member of the set.
  pub record IsListing (zrevrange : List (String × Score) → List (Member per_mille)) : Type 0 where
    pub lists :
        (set : List (String × Score)) (id : String) (z : Score)
        → lookup id set ≡ some z
        → (i : ℕ) × Lists (zrevrange set) id z i

  module _ (decode : Blob → Option (Entry per_mille Metrics)) where
    handler_entries-append :
        (details : String → Option Blob) (i : ℕ) (xs ys : List (Member per_mille))
        → handler_entries per_mille details decode i (xs ++ ys)
          ≡ handler_entries per_mille details decode i xs
            ++ handler_entries per_mille details decode (i + length xs) ys
    unfolding handler_entries
    handler_entries-append details i [] ys =
        ap (λ k. handler_entries per_mille details decode k ys) (omega arith)
    handler_entries-append details i (x ∷ xs) ys =
        let rest =
          handler_entries-append details (suc i) xs ys
          ∙ ap
              (λ k.
                handler_entries per_mille details decode (suc i) xs
                ++ handler_entries per_mille details decode k ys)
              (omega arith) in
        elim (Option-cases x.name) [
          | inl other ↦ simp other rest
          | inr (m, named) ↦
              let here =
                entry_of per_mille details decode (i + 1) x.score_of m
                  (details (split_colon m).0) in
              simp named (ap (λ es. here ++ es) rest ∙ sym (append_assoc here _ _))
        ]

    entry_of_decoded :
        (details : String → Option Blob) (rank : ℕ) (z : Score) (id : String) (blob : Blob)
        (e : Entry per_mille Metrics)
        → decode blob ≡ some e
        → entry_of per_mille details decode rank z id (some blob) ≡ record e { rank = rank } ∷ []
    unfolding entry_of
    entry_of_decoded details rank z id blob e dec = rw (dec, entry_of) refl

    handler_entries-found :
        (details : String → Option Blob) (i : ℕ) (z : Score) (id : String) (blob : Blob)
        (e : Entry per_mille Metrics) (below : List (Member per_mille))
        → details (split_colon id).0 ≡ some blob
        → decode blob ≡ some e
        → handler_entries per_mille details decode i
            (record { name = some id; score_of = z } ∷ below)
          ≡ record e { rank = i + 1 } ∷ handler_entries per_mille details decode (suc i) below
    unfolding handler_entries
    handler_entries-found details i z id blob e below found dec =
        ap
          (λ o.
            entry_of per_mille details decode (i + 1) z id o
            ++ handler_entries per_mille details decode (suc i) below)
          found
        ∙ ap (λ es. es ++ handler_entries per_mille details decode (suc i) below)
            (entry_of_decoded details (i + 1) z id blob e dec)

    handler_entries-after :
        (details : String → Option Blob) (xs ys : List (Member per_mille))
        → handler_entries per_mille details decode 0 (xs ++ ys)
          ≡ handler_entries per_mille details decode 0 xs
            ++ handler_entries per_mille details decode (length xs) ys
    handler_entries-after details xs ys =
        handler_entries-append details 0 xs ys
        ∙ ap
            (λ k.
              handler_entries per_mille details decode 0 xs
              ++ handler_entries per_mille details decode k ys)
            (omega arith)

    -- The entries have this one among them.
    abbrev pub Shows : List (Entry per_mille Metrics) → Entry per_mille Metrics → Type 0
    Shows es e =
        (before : List (Entry per_mille Metrics)) × ((after : List (Entry per_mille Metrics)) × (es
            ≡ before ++ (e ∷ after)))

    -- After an update of a submission whose id has no colon, and further updates of other submissions, the
    -- store's sorted set lists the submission with 1000 times its score, and the leaderboard shows the entry
    -- of that update with the place in that list as its rank, if the decoder reads back what was encoded.
    pub update_all-Shows :
        (zrevrange : List (String × Score) → List (Member per_mille)) (st : Store) (u : Update)
        (us : List Update) (blob : Blob)
        → IsListing zrevrange
        → encode (entry_for u) ≡ some blob
        → decode blob ≡ some (entry_for u)
        → (split_colon u.submission_id).0 ≡ u.submission_id
        → All (λ (v : Update). v.submission_id ≢ u.submission_id) us
        → let end = update_all (update_leaderboard st u) us in
          (i : ℕ) × (Lists (zrevrange end.leaderboard) u.submission_id (times_1000 u.score) i
            × Shows
                (handler_entries per_mille
                  (λ id. lookup id end.details)
                  decode
                  0
                  (zrevrange end.leaderboard))
                (record (entry_for u) { rank = i + 1 }))
    update_all-Shows zrevrange st u us blob listing enc dec plain others =
        let id = u.submission_id in
        let end = update_all (update_leaderboard st u) us in
        let details = λ (key : String). lookup key end.details in
        let found : details id ≡ some blob =
          update_all-other (update_leaderboard st u) us id others ∙ update-details st u blob enc in
        let at : lookup id end.leaderboard ≡ some (times_1000 u.score) =
          update_all-board (update_leaderboard st u) us id others ∙ update-board st u blob enc in
        let (i, (above, (below, (listed, place)))) =
          listing.lists end.leaderboard id (times_1000 u.score) at in
        (
          i,
          (
            (above, (below, (listed, place))),
            subst
                (λ k.
                  Shows (handler_entries per_mille details decode 0 (zrevrange end.leaderboard))
                    (record (entry_for u) { rank = k + 1 }))
                place
                (
                  handler_entries per_mille details decode 0 above,
                  (
                    handler_entries per_mille details decode (suc (length above)) below,
                    ap (handler_entries per_mille details decode 0) listed
                        ∙ handler_entries-after details above _
                        ∙ ap (λ es. handler_entries per_mille details decode 0 above ++ es)
                            (handler_entries-found details (length above) (times_1000 u.score) id
                              blob (entry_for u) below (ap details plain ∙ found) dec),
                  ),
                ),
          ),
        )
