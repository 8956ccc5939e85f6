-- ===== src/BotRunner/Bot/AgainstStub.antt =====
-- services/bot-runner/bot.go against services/stub/main.go: what a load bot hears of its orders.
--
-- A request is a message of the bot with the time at which its answers are read. They are read before
-- the next request is sent; who else trades does not matter, since the stub answers the sender alone.
use iicpc_sh.Prelude.{
  ℕ, ◌≡◌, ◌≢◌, refl, sym, ◌∙◌, arith, inl, inr, List, [], ◌∷◌, String, Bool-cases, Option-cases,
  str_eq, str_eq_iff, All, pos, eqb_ℤ, ◌-◌,
}
use iicpc_sh.Prelude.Assoc.{lookup, lookup-delete}
use iicpc_sh.Stub.Types.{IncomingMessage, Message, ack, fill, reject, cancel_ack}
use iicpc_sh.Stub.Session.{Stub, handle_message}
use iicpc_sh.Stub.Session.Own.{message_id, AreAbout, handle_message-AreAbout}
use iicpc_sh.BotRunner.Bot.{
  Histogram, Bot, Reply, settle, on_ack, on_fill, on_reject, on_pending, receive,
}

-- What the reader decodes of a message of the stub; a field that is not sent is 0.
unfoldable pub decode : Message → Reply
decode (ack id ts) = record { type = "ack"; order_id = id; remaining = pos 0 }
decode (fill f) = record { type = "fill"; order_id = f.order_id; remaining = pos f.remaining }
decode (reject id reason ts) = record { type = "reject"; order_id = id; remaining = pos 0 }
decode (cancel_ack id ts) = record { type = "cancel_ack"; order_id = id; remaining = pos 0 }

module _ (H : Histogram) where
  -- The reader's loop over the answers to a request.
  unfoldable pub hear : Bot H → List Message → ℕ → Bot H
  hear b [] now = b
  hear b (m ∷ ms) now = hear (receive H b (decode m) now) ms now

  -- The requests of a session, one after the other: the stub and the bot in the end.
  unfoldable pub trade : String → Stub → Bot H → List (IncomingMessage × ℕ) → Stub × Bot H
  trade session st b [] = (st, b)
  trade session st b ((msg, now) ∷ rs) =
      let (st', sent) = handle_message st msg session in trade session st' (hear b sent now) rs

  module _ (k : String) where
    settle-other :
        (b : Bot H) (id : String) → id ≢ k → lookup k (settle H b id).pending ≡ lookup k b.pending
    unfolding settle
    settle-other b id ne = ground (arith, lookup-delete id k b.pending, str_eq_iff id k)

    on_pending-other :
        (b : Bot H) (msg : Reply) (d : ℕ)
        → msg.order_id ≢ k
        → lookup k (on_pending H b msg d).pending ≡ lookup k b.pending
    unfolding on_pending on_ack on_fill on_reject settle
    on_pending-other b msg d ne =
        let gone = settle-other b msg.order_id ne in
        elim (Bool-cases (str_eq msg.type "ack")) [
          | inl a ↦ rw a refl
          | inr a ↦ rw a (elim (Bool-cases (str_eq msg.type "fill")) [
            | inl f ↦ rw f (elim (Bool-cases (eqb_ℤ msg.remaining (pos 0))) [
              | inl z ↦ rw z gone
              | inr z ↦ rw z refl
            ])
            | inr f ↦ rw f (elim (Bool-cases (str_eq msg.type "reject")) [
              | inl r ↦ rw r gone
              | inr r ↦ rw r (elim (Bool-cases (str_eq msg.type "cancel_ack")) [
                | inl c ↦ rw c gone
                | inr c ↦ rw c refl
              ])
            ])
          ])
        ]

    receive-other :
        (b : Bot H) (msg : Reply) (now : ℕ)
        → msg.order_id ≢ k
        → lookup k (receive H b msg now).pending ≡ lookup k b.pending
    unfolding receive
    receive-other b msg now ne = elim (Option-cases (lookup msg.order_id b.pending)) [
      | inl e ↦ rw (e, receive) refl
      | inr (v, e) ↦ rw (e, receive) (on_pending-other b msg (now - v) ne)
    ]

    decode_id : (m : Message) → (decode m).order_id ≡ message_id m
    unfolding decode
    decode_id (ack id ts) = refl
    decode_id (fill f) = refl
    decode_id (reject id reason ts) = refl
    decode_id (cancel_ack id ts) = refl

    hear-other :
        (id : String) (b : Bot H) (ms : List Message) (now : ℕ)
        → id ≢ k
        → AreAbout id ms
        → lookup k (hear b ms now).pending ≡ lookup k b.pending
    unfolding hear
    hear-other id b [] now ne h = refl
    hear-other id b (m ∷ ms) now ne (h, hs) =
        hear-other id (receive H b (decode m) now) ms now ne hs
        ∙ receive-other b (decode m) now (λ e. ne (sym (decode_id m ∙ h) ∙ e))

    -- The answers of the stub to requests that name other orders settle no order: after them it is
    -- pending, with its time of sending, if and only if it was before. This holds though they fill it.
    pub trade-pending :
        (session : String) (st : Stub) (b : Bot H) (rs : List (IncomingMessage × ℕ))
        → All (λ r. r.0.order_id ≢ k) rs
        → lookup k (trade session st b rs).1.pending ≡ lookup k b.pending
    unfolding trade
    trade-pending session st b [] h = refl
    trade-pending session st b ((msg, now) ∷ rs) (ne, h) =
        let r = handle_message st msg session in
        trade-pending session r.0 (hear b r.1 now) rs h
        ∙ hear-other msg.order_id b r.1 now ne (handle_message-AreAbout st msg session)
