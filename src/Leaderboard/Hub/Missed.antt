-- ===== src/Leaderboard/Hub/Missed.antt =====
-- A client that the hub fails to remove.
use iicpc_sh.Prelude.{
  ℕ, ◌+◌, ◌≡◌, ◌<◌, refl, arith, inl, inr, false, Option, none, some, List, [], ◌∷◌, ltb, ◌==◌,
  length, Bool-cases, Option-cases, ap, subst,
}
use iicpc_sh.Leaderboard.Hub.{
  Hub, connect, send_snapshot, disconnect, broadcast, take_reg, take_unreg, any_closed, take_msg,
  write_one, Event, connects, reg_taken, unreg_taken, msg_taken, snapshots, disconnects, writes,
  broadcasts, step, steps,
}
use iicpc_sh.Leaderboard.Hub.Placed.{bit, count, count-append, offer-count}

-- The handler of a client has ended, no request to remove it waits, and it is registered or about to be.
pub record IsMissed (h : Hub) (c : ℕ) : Type 0 where
  pub ended : h.live c ≡ false
  pub unheard : count c h.unreg_ch ≡ 0
  pub kept : 0 < count c h.reg_ch + bit (h.clients c)
  pub old : c < h.next

connect-IsMissed : (h : Hub) (c : ℕ) → IsMissed h c → IsMissed (connect h) c
unfolding connect count
connect-IsMissed h c m =
    let e = m.ended in
    let u = m.unheard in
    let k = m.kept in
    let o = m.old in
    let n = count-append c h.reg_ch (h.next ∷ []) in
    let q = offer-count 64 c h.unreg_ch h.next in
    elim (Bool-cases (ltb (length h.reg_ch) 64)) [
      | inl room ↦
          simp room
            (record { ended = ground arith; unheard = u; kept = ground arith; old = omega arith })
      | inr full ↦
          simp full (record { ended = e; unheard = ground arith; kept = k; old = omega arith })
    ]

disconnect-IsMissed : (h : Hub) (d c : ℕ) → IsMissed h c → IsMissed (disconnect h d) c
unfolding disconnect
disconnect-IsMissed h d c m =
    let e = m.ended in
    let u = m.unheard in
    let q = offer-count 64 c h.unreg_ch d in
    elim (Bool-cases (h.live d)) [
      | inr gone ↦ simp gone m
      | inl here ↦
          let other : (d == c) ≡ false = elim (Bool-cases (d == c)) [
            | inr far ↦ far
            | inl same ↦
                let eq : d ≡ c = ground arith in absurd (let at = ap h.live eq in ground arith)
          ] in
          simp here
            (record { ended = ground arith; unheard = ground arith; kept = m.kept; old = m.old })
    ]

take_reg-IsMissed :
    (h : Hub) (cs : List ℕ) (c : ℕ) → h.reg_ch ≡ cs → IsMissed h c → IsMissed (take_reg h cs) c
unfolding take_reg count
take_reg-IsMissed h [] c eq m = m
take_reg-IsMissed h (d ∷ cs) c eq m =
    let k = m.kept in
    let n : count c h.reg_ch ≡ bit (d == c) + count c cs = ap (count c) eq in
    record { ended = m.ended; unheard = m.unheard; kept = ground arith; old = m.old }

-- The hub after a step, if it does not panic, still misses the client.
abbrev pub StaysMissed : Option Hub → ℕ → Type 0
StaysMissed none c = Unit {0}
StaysMissed (some h) c = IsMissed h c

take_unreg-StaysMissed :
    (h : Hub) (cs : List ℕ) (c : ℕ)
    → h.unreg_ch ≡ cs
    → IsMissed h c
    → StaysMissed (take_unreg h cs) c
unfolding take_unreg count
take_unreg-StaysMissed h [] c eq m = m
take_unreg-StaysMissed h (d ∷ cs) c eq m =
    let k = m.kept in
    let u = m.unheard in
    let n : count c h.unreg_ch ≡ bit (d == c) + count c cs = ap (count c) eq in
    elim (Bool-cases (h.clients d)) [
      | inr absent ↦
          simp absent (record { ended = m.ended; unheard = omega arith; kept = k; old = m.old })
      | inl there ↦ elim (Bool-cases (h.closed d)) [
        | inl shut ↦ simp there (simp shut (record {}))
        | inr still_open ↦ simp there (
            simp still_open
              (record { ended = m.ended; unheard = omega arith; kept = ground arith; old = m.old }))
      ]
    ]

take_msg-StaysMissed :
    (h : Hub) (ms : List ℕ) (c : ℕ) → IsMissed h c → StaysMissed (take_msg h ms) c
unfolding take_msg
take_msg-StaysMissed h [] c m = m
take_msg-StaysMissed h (x ∷ ms) c m = elim (Bool-cases (any_closed h h.next)) [
  | inl bad ↦ simp bad (record {})
  | inr good ↦
      simp good (record { ended = m.ended; unheard = m.unheard; kept = m.kept; old = m.old })
]

send_snapshot-StaysMissed :
    (h : Hub) (d x c : ℕ) → IsMissed h c → StaysMissed (send_snapshot h d x) c
unfolding send_snapshot
send_snapshot-StaysMissed h d x c m = elim (Bool-cases (h.live d)) [
  | inr gone ↦ simp gone m
  | inl here ↦ elim (Bool-cases (h.closed d)) [
    | inl shut ↦ simp here (simp shut (record {}))
    | inr still_open ↦ simp here (
        simp still_open
          (record { ended = m.ended; unheard = m.unheard; kept = m.kept; old = m.old }))
  ]
]

step-StaysMissed : (h : Hub) (e : Event) (c : ℕ) → IsMissed h c → StaysMissed (step h e) c
unfolding step broadcast write_one
step-StaysMissed h connects c m = connect-IsMissed h c m
step-StaysMissed h reg_taken c m = take_reg-IsMissed h h.reg_ch c refl m
step-StaysMissed h unreg_taken c m = take_unreg-StaysMissed h h.unreg_ch c refl m
step-StaysMissed h msg_taken c m = take_msg-StaysMissed h h.msg_ch c m
step-StaysMissed h (snapshots d x) c m = send_snapshot-StaysMissed h d x c m
step-StaysMissed h (disconnects d) c m = disconnect-IsMissed h d c m
step-StaysMissed h (writes d) c m = record {
  ended = m.ended;
  unheard = m.unheard;
  kept = m.kept;
  old = m.old;
}
step-StaysMissed h (broadcasts x) c m = record {
  ended = m.ended;
  unheard = m.unheard;
  kept = m.kept;
  old = m.old;
}

-- A client whose handler has ended, that is registered or about to be, and for which no request to be
-- removed waits, stays so whatever happens later.
pub steps-StaysMissed :
    (h : Hub) (es : List Event) (c : ℕ) → IsMissed h c → StaysMissed (steps h es) c
unfolding steps
steps-StaysMissed h [] c m = m
steps-StaysMissed h (e ∷ es) c m =
    let next = step-StaysMissed h e c m in
    elim (Option-cases (step h e)) [
      | inl bad ↦ rw (bad, steps) (record {})
      | inr (h', ok) ↦
          rw (ok, steps) (steps-StaysMissed h' es c (subst (λ r. StaysMissed r c) ok next))
    ]
