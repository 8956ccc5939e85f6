-- ===== src/BotRunner/Bot/Flight.antt =====
-- inFlight against the number of pending orders.
use iicpc_sh.Prelude.{
  ◌+◌, ℕ, suc, ◌-◌, ◌≡◌, refl, arith, inl, inr, Bool-cases, Option-cases, none, some, List, [], ◌∷◌,
  String, ltb, str_eq, str_eq_iff, length, eqb_ℤ, pos,
}
use iicpc_sh.Prelude.Assoc.{
  IsMap, delete-IsMap, insert-IsMap, lookup, delete, insert, lookup-delete,
}
use iicpc_sh.BotRunner.Bot.{
  Histogram, Bot, Reply, send_order, settle, on_ack, on_fill, on_reject, on_pending, receive,
  collect, collect_from, lose_connection, stale_after, Action, sends, receives, collects, loses,
  act, act_all, record_ack, record_fill,
}

delete-fresh : (k : String) (m : List (String × ℕ)) → lookup k m ≡ none → delete k m ≡ m
unfolding lookup delete
delete-fresh k [] h = refl
delete-fresh k ((j, v) ∷ m) h = ground (arith, delete-fresh k m)

length-delete :
    (k : String) (m : List (String × ℕ)) (v : ℕ)
    → IsMap m
    → lookup k m ≡ some v
    → suc (length (delete k m)) ≡ length m
unfolding delete IsMap lookup
length-delete k [] v h e = absurd (ground arith)
length-delete k ((j, w) ∷ m) v (new, h) e = elim (Bool-cases (str_eq j k)) [
  | inl same ↦ ground (arith, delete-fresh k m, str_eq_iff j k)
  | inr other ↦ ground (arith, length-delete k m v h)
]

module _ (H : Histogram) where
  -- `inFlight` is the number of pending orders.
  pub record IsBalanced (b : Bot H) : Type 0 where
    pub is_map : IsMap b.pending
    pub counted : b.in_flight ≡ length b.pending

  -- `inFlight` is n more than the number of pending orders.
  pub record IsLeaking (n : ℕ) (b : Bot H) : Type 0 where
    pub is_map : IsMap b.pending
    pub counted : b.in_flight ≡ length b.pending + n

  -- The order sent is not pending, as long as its id is new.
  abbrev pub IsFresh : Bot H → Action H → Type 0
  IsFresh b (sends oid now) = lookup oid b.pending ≡ none
  IsFresh b (receives msg now) = Unit {0}
  IsFresh b (collects now) = Unit {0}
  IsFresh b loses = Unit {0}

  unfoldable pub AreFresh : Bot H → List (Action H) → Type 0
  AreFresh b [] = Unit {0}
  AreFresh b (a ∷ acts) = IsFresh b a × AreFresh (act H b a) acts

module _ (H : Histogram) (n : ℕ) where
  settle-IsLeaking :
      (b : Bot H) (id : String) (v : ℕ)
      → IsLeaking H n b
      → lookup id b.pending ≡ some v
      → IsLeaking H n (settle H b id)
  unfolding settle
  settle-IsLeaking b id v h e = record {
    is_map = delete-IsMap id b.pending h.is_map;
    counted = let c = h.counted in omega (arith, length-delete id b.pending v h.is_map e);
  }

  on_pending-IsLeaking :
      (b : Bot H) (msg : Reply) (d v : ℕ)
      → IsLeaking H n b
      → lookup msg.order_id b.pending ≡ some v
      → IsLeaking H n (on_pending H b msg d)
  unfolding on_pending on_ack on_fill on_reject record_ack record_fill
  on_pending-IsLeaking b msg d v h e = elim (Bool-cases (str_eq msg.type "ack")) [
    | inl a ↦ rw a (record { is_map = h.is_map; counted = h.counted })
    | inr a ↦ rw a (elim (Bool-cases (str_eq msg.type "fill")) [
      | inl f ↦ rw f (elim (Bool-cases (eqb_ℤ msg.remaining (pos 0))) [
        | inl z ↦ rw z (
            settle-IsLeaking _ msg.order_id v (record { is_map = h.is_map; counted = h.counted }) e)
        | inr z ↦ rw z (record { is_map = h.is_map; counted = h.counted })
      ])
      | inr f ↦ rw f (elim (Bool-cases (str_eq msg.type "reject")) [
        | inl r ↦ rw r (
            settle-IsLeaking _ msg.order_id v (record { is_map = h.is_map; counted = h.counted }) e)
        | inr r ↦ rw r (elim (Bool-cases (str_eq msg.type "cancel_ack")) [
          | inl c ↦ rw c (settle-IsLeaking b msg.order_id v h e)
          | inr c ↦ rw c h
        ])
      ])
    ])
  ]

  receive-IsLeaking :
      (b : Bot H) (msg : Reply) (now : ℕ) → IsLeaking H n b → IsLeaking H n (receive H b msg now)
  unfolding receive
  receive-IsLeaking b msg now h = elim (Option-cases (lookup msg.order_id b.pending)) [
    | inl e ↦ rw (e, receive) h
    | inr (v, e) ↦ rw (e, receive) (on_pending-IsLeaking b msg (now - v) v h e)
  ]

  -- The orders that the collector has yet to look at are pending.
  unfoldable Held : List (String × ℕ) → List (String × ℕ) → Type 0
  Held [] m = Unit {0}
  Held ((k, v) ∷ os) m = (lookup k m ≡ some v) × Held os m

  Held-delete :
      (k : String) (os m : List (String × ℕ))
      → lookup k os ≡ none
      → Held os m
      → Held os (delete k m)
  unfolding Held lookup
  Held-delete k [] m f h = h
  Held-delete k ((j, v) ∷ os) m f (e, h) = (
    ground (arith, lookup-delete k j m, str_eq_iff k j, str_eq_iff j k),
    Held-delete k os m (ground arith) h,
  )

  Held-cons :
      (k : String) (v : ℕ) (os m : List (String × ℕ))
      → lookup k os ≡ none
      → Held os m
      → Held os ((k, v) ∷ m)
  unfolding Held lookup
  Held-cons k v [] m f h = h
  Held-cons k v ((j, w) ∷ os) m f (e, h) =
      (ground (arith, str_eq_iff k j, str_eq_iff j k), Held-cons k v os m (ground arith) h)

  Held-self : (m : List (String × ℕ)) → IsMap m → Held m m
  unfolding Held IsMap lookup
  Held-self [] h = h
  Held-self ((k, v) ∷ m) (new, h) =
      (ground (arith, str_eq_iff k k), Held-cons k v m m new (Held-self m h))

  collect_from-IsLeaking :
      (os : List (String × ℕ)) (b : Bot H) (now : ℕ)
      → IsMap os
      → Held os b.pending
      → IsLeaking H n b
      → IsLeaking H n (collect_from H os b now)
  unfolding collect_from Held IsMap settle
  collect_from-IsLeaking [] b now o held h = h
  collect_from-IsLeaking ((k, v) ∷ os) b now (new, o) (e, held) h =
      elim (Bool-cases (ltb (stale_after H) (now - v))) [
        | inl old ↦
            let s = settle-IsLeaking b k v h e in
            rw old (
              collect_from-IsLeaking os _ now o (Held-delete k os b.pending new held)
                (record { is_map = s.is_map; counted = s.counted }))
        | inr young ↦ rw young (collect_from-IsLeaking os b now o held h)
      ]

  pub act-IsLeaking :
      (b : Bot H) (a : Action H) → IsFresh H b a → IsLeaking H n b → IsLeaking H n (act H b a)
  unfolding act send_order lose_connection insert collect IsMap
  act-IsLeaking b (sends oid now) f h = record {
    is_map = rw (delete-fresh oid b.pending f) (f, h.is_map);
    counted = let c = h.counted in rw (delete-fresh oid b.pending f) (omega arith);
  }
  act-IsLeaking b (receives msg now) f h = receive-IsLeaking b msg now h
  act-IsLeaking b (collects now) f h =
      collect_from-IsLeaking b.pending b now h.is_map (Held-self b.pending h.is_map) h
  act-IsLeaking b loses f h = record { is_map = h.is_map; counted = h.counted }

  act_all-IsLeaking :
      (b : Bot H) (acts : List (Action H))
      → AreFresh H b acts
      → IsLeaking H n b
      → IsLeaking H n (act_all H b acts)
  unfolding act_all AreFresh
  act_all-IsLeaking b [] f h = h
  act_all-IsLeaking b (a ∷ acts) (f, fs) h =
      act_all-IsLeaking (act H b a) acts fs (act-IsLeaking b a f h)

  -- An order sent again under an id that is pending is one more that is never settled.
  pub resend-IsLeaking :
      (b : Bot H) (oid : String) (v now : ℕ)
      → IsLeaking H n b
      → lookup oid b.pending ≡ some v
      → IsLeaking H (suc n) (send_order H b oid now)
  unfolding send_order insert IsMap
  resend-IsLeaking b oid v now h e = record {
    is_map = insert-IsMap oid now b.pending h.is_map;
    counted = let c = h.counted in omega (arith, length-delete oid b.pending v h.is_map e);
  }

module _ (H : Histogram) where
  pub act-IsBalanced :
      (b : Bot H) (a : Action H) → IsFresh H b a → IsBalanced H b → IsBalanced H (act H b a)
  act-IsBalanced b a f h =
      let r =
        act-IsLeaking H 0 b a f
          (record { is_map = h.is_map; counted = let c = h.counted in omega arith }) in
      record { is_map = r.is_map; counted = let c = r.counted in omega arith }

  -- However the writer, the reader and the collector interleave, `inFlight` is the number of pending
  -- orders, as long as no order is sent under an id that is pending.
  pub act_all-IsBalanced :
      (b : Bot H) (acts : List (Action H))
      → AreFresh H b acts
      → IsBalanced H b
      → IsBalanced H (act_all H b acts)
  unfolding act_all AreFresh
  act_all-IsBalanced b [] f h = h
  act_all-IsBalanced b (a ∷ acts) (f, fs) h =
      act_all-IsBalanced (act H b a) acts fs (act-IsBalanced b a f h)

  -- An order that is sent again under an id that is pending, when `inFlight` was the number of pending
  -- orders, raises `inFlight` by one and leaves the number of pending orders. From then on, whatever the
  -- bot does that is no second such order, `inFlight` is one more than the number of pending orders.
  pub send_order-leak :
      (b : Bot H) (oid : String) (v now : ℕ) (acts : List (Action H))
      → IsBalanced H b
      → lookup oid b.pending ≡ some v
      → AreFresh H (send_order H b oid now) acts
      → let b' = send_order H b oid now in
        (b'.in_flight ≡ suc b.in_flight)
        × (length b'.pending ≡ length b.pending)
        × ((act_all H b' acts).in_flight ≡ suc (length (act_all H b' acts).pending))
  unfolding send_order insert
  send_order-leak b oid v now acts h e fresh =
      let c = h.counted in
      let later = act_all-IsLeaking H 1 (send_order H b oid now) acts fresh (
        resend-IsLeaking H 0 b oid v now
          (record { is_map = h.is_map; counted = let c = h.counted in omega arith }) e) in
      let counted = later.counted in
      (refl, omega (arith, length-delete oid b.pending v h.is_map e), omega arith)
