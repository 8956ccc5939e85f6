-- ===== src/BotRunner/Bot/Writer/Answers.antt =====
-- What the reader and the collector do: they send nothing, and keep inFlight right.
use iicpc_sh.Prelude.{
  ℕ, suc, ◌-◌, ◌≡◌, ◌≢◌, arith, inl, inr, Bool, none, List, [], ◌∷◌, String, ltb, str_eq,
  str_eq_iff, if◌then◌else◌, Bool-cases, Option-cases, eqb_ℤ, pos, false, true,
}
use iicpc_sh.Prelude.Assoc.{lookup, delete, insert, lookup-delete, lookup-insert}
use iicpc_sh.BotRunner.Bot.{
  Histogram, Bot, Reply, settle, on_ack, on_fill, on_reject, on_pending, receive, collect,
  collect_from, stale_after, act, receives as receive_act, collects as collect_act,
}
use iicpc_sh.BotRunner.Bot.Flight.{IsBalanced, act-IsBalanced}
use iicpc_sh.BotRunner.Bot.Writer.{Other, receives, collects, other_act, other_acts}

delete-none :
    (k j : String) (m : List (String × ℕ)) → lookup j m ≡ none → lookup j (delete k m) ≡ none
delete-none k j m h = ground (arith, lookup-delete k j m)

pub insert-none :
    (k j : String) (v : ℕ) (m : List (String × ℕ))
    → k ≢ j
    → lookup j m ≡ none
    → lookup j (insert k v m) ≡ none
insert-none k j v m ne h = ground (arith, lookup-insert k j v m, str_eq_iff k j)

module _ (H : Histogram) (k : String) where
  on_pending-none :
      (b : Bot H) (msg : Reply) (d : ℕ)
      → lookup k b.pending ≡ none
      → lookup k (on_pending H b msg d).pending ≡ none
  unfolding on_pending on_ack on_fill on_reject settle
  on_pending-none b msg d h =
      let gone = delete-none msg.order_id k b.pending h in
      elim (Bool-cases (str_eq msg.type "ack")) [
        | inl a ↦ rw a h
        | inr a ↦ rw a (elim (Bool-cases (str_eq msg.type "fill")) [
          | inl f ↦ rw f (elim (Bool-cases (eqb_ℤ msg.remaining (pos 0))) [
            | inl z ↦ rw z gone
            | inr z ↦ rw z h
          ])
          | inr f ↦ rw f (elim (Bool-cases (str_eq msg.type "reject")) [
            | inl r ↦ rw r gone
            | inr r ↦ rw r (elim (Bool-cases (str_eq msg.type "cancel_ack")) [
              | inl c ↦ rw c gone
              | inr c ↦ rw c h
            ])
          ])
        ])
      ]

  receive-none :
      (b : Bot H) (msg : Reply) (now : ℕ)
      → lookup k b.pending ≡ none
      → lookup k (receive H b msg now).pending ≡ none
  unfolding receive
  receive-none b msg now h = elim (Option-cases (lookup msg.order_id b.pending)) [
    | inl e ↦ rw (e, receive) h
    | inr (v, e) ↦ rw (e, receive) (on_pending-none b msg (now - v) h)
  ]

  dropped-none :
      (b : Bot H) (id : String) (stale : Bool)
      → lookup k b.pending ≡ none
      → lookup k
          (if stale
            then record (settle H b id) {
              metrics = record (settle H b id).metrics {
                stale_orders = suc (settle H b id).metrics.stale_orders;
              };
            }
            else b).pending
        ≡ none
  unfolding settle
  dropped-none b id true h = delete-none id k b.pending h
  dropped-none b id false h = h

  collect_from-none :
      (os : List (String × ℕ)) (b : Bot H) (now : ℕ)
      → lookup k b.pending ≡ none
      → lookup k (collect_from H os b now).pending ≡ none
  unfolding collect_from settle
  collect_from-none [] b now h = h
  collect_from-none ((id, sent_at) ∷ os) b now h =
      collect_from-none os _ now (dropped-none b id (ltb (stale_after H) (now - sent_at)) h)

  pub other_acts-none :
      (b : Bot H) (os : List Other)
      → lookup k b.pending ≡ none
      → lookup k (other_acts H b os).pending ≡ none
  unfolding other_acts other_act collect
  other_acts-none b [] h = h
  other_acts-none b (receives msg now ∷ os) h =
      other_acts-none (receive H b msg now) os (receive-none b msg now h)
  other_acts-none b (collects now ∷ os) h =
      other_acts-none (collect_from H b.pending b now) os (collect_from-none b.pending b now h)

module _ (H : Histogram) where
  pub other_acts-IsBalanced :
      (b : Bot H) (os : List Other) → IsBalanced H b → IsBalanced H (other_acts H b os)
  unfolding other_acts other_act act
  other_acts-IsBalanced b [] h = h
  other_acts-IsBalanced b (receives msg now ∷ os) h =
      other_acts-IsBalanced (receive H b msg now) os (act-IsBalanced H b (receive_act msg now) tt h)
  other_acts-IsBalanced b (collects now ∷ os) h =
      other_acts-IsBalanced (collect H b now) os (act-IsBalanced H b (collect_act now) tt h)
