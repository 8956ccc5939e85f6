-- ===== src/Leaderboard/Hub/Closed.antt =====
-- No channel is used after it is closed.
use iicpc_sh.Prelude.{
  ℕ, zero, suc, ◌+◌, ◌≡◌, ◌≤◌, refl, arith, inl, inr, true, false, Option, some, List, [], ◌∷◌,
  ◌==◌, if◌then◌else◌, length, Bool-cases, ap,
}
use iicpc_sh.Leaderboard.Hub.{
  Hub, new_hub, put, offer, connect, send_snapshot, disconnect, broadcast, take_reg, take_unreg,
  any_closed, take_msg, tail, write_one, Event, connects, reg_taken, unreg_taken, msg_taken,
  snapshots, disconnects, writes, broadcasts, step, steps,
}
use iicpc_sh.Leaderboard.Hub.Placed.{
  bit, count, IsValid, offer-bound, connect-IsValid, disconnect-IsValid, take_reg-IsValid,
}

-- The hub after a step that does not panic.
abbrev pub IsSafe : Option Hub → Type 0
IsSafe r = (h' : Hub) × ((r ≡ some h') × IsValid h')

take_unreg-IsSafe : (h : Hub) (cs : List ℕ) → h.unreg_ch ≡ cs → IsValid h → IsSafe (take_unreg h cs)
unfolding take_unreg count
take_unreg-IsSafe h [] e v = (h, (refl, v))
take_unreg-IsSafe h (d ∷ cs) e v =
    let len = ap length e in
    let bounded : length cs ≤ 64 = let b = v.bounded.unreg in omega arith in
    elim (Bool-cases (h.clients d)) [
      | inr absent ↦ (
        record h { unreg_ch = cs },
        (
          simp absent refl,
          record {
            placed = λ c.
                let p = v.placed c in
                let o = p.once in
                let l = p.open_live in
                let left = p.left in
                let later = p.later in
                let n : count c h.unreg_ch ≡ bit (d == c) + count c cs = ap (count c) e in
                record {
                  once = ground arith;
                  open_live = ground arith;
                  left = ground arith;
                  later = ground arith;
                };
            bounded = record {
              reg = v.bounded.reg;
              unreg = bounded;
              msg = v.bounded.msg;
              sends = v.bounded.sends;
            };
          },
        ),
      )
      | inl there ↦
          let q = (v.placed d).once in
          let still_open : h.closed d ≡ false = ground arith in
          (
            record h {
              unreg_ch = cs;
              clients = put h.clients d false;
              closed = put h.closed d true;
            },
            (
              simp there (simp still_open refl),
              record {
                placed = λ c.
                    let p = v.placed c in
                    let o = p.once in
                    let l = p.open_live in
                    let left = p.left in
                    let later = p.later in
                    let n : count c h.unreg_ch ≡ bit (d == c) + count c cs = ap (count c) e in
                    record {
                      once = ground arith;
                      open_live = ground arith;
                      left = ground arith;
                      later = ground arith;
                    };
                bounded = record {
                  reg = v.bounded.reg;
                  unreg = bounded;
                  msg = v.bounded.msg;
                  sends = v.bounded.sends;
                };
              },
            ),
          )
    ]

any_closed-none : (h : Hub) (n : ℕ) → IsValid h → any_closed h n ≡ false
unfolding any_closed
any_closed-none h zero v = refl
any_closed-none h (suc n) v =
    let o = (v.placed n).once in let rest = any_closed-none h n v in ground arith

-- A change of the messages alone.
with_messages-IsValid :
    (h : Hub) (ms : List ℕ) (send : ℕ → List ℕ)
    → length ms ≤ 256
    → ((c : ℕ) → length (send c) ≤ 256)
    → IsValid h
    → IsValid (record h { msg_ch = ms; send = send })
with_messages-IsValid h ms send m s v = record {
  placed = λ c.
      let p = v.placed c in
      record { once = p.once; open_live = p.open_live; left = p.left; later = p.later };
  bounded = record { reg = v.bounded.reg; unreg = v.bounded.unreg; msg = m; sends = s };
}

take_msg-IsSafe : (h : Hub) (ms : List ℕ) → h.msg_ch ≡ ms → IsValid h → IsSafe (take_msg h ms)
unfolding take_msg
take_msg-IsSafe h [] e v = (h, (refl, v))
take_msg-IsSafe h (m ∷ ms) e v =
    let len = ap length e in
    let b = v.bounded.msg in
    let sent : ℕ → List ℕ = λ c. if h.clients c then offer 256 (h.send c) m else h.send c in
    (
      record h { msg_ch = ms; send = sent },
      (
        simp (any_closed-none h h.next v) refl,
        with_messages-IsValid h ms sent (omega arith)
            (λ c. elim (Bool-cases (h.clients c)) [
              | inl member ↦ rw member (offer-bound 256 (h.send c) m (v.bounded.sends c))
              | inr other ↦ rw other (v.bounded.sends c)
            ])
            v,
      ),
    )

put-bound :
    (f : ℕ → List ℕ) (d : ℕ) (q : List ℕ)
    → length q ≤ 256
    → ((c : ℕ) → length (f c) ≤ 256)
    → (c : ℕ) → length (put f d q c) ≤ 256
put-bound f d q b bs c = elim (Bool-cases (d == c)) [
  | inl here ↦ rw here b
  | inr there ↦ rw there (bs c)
]

send_snapshot-IsSafe : (h : Hub) (d m : ℕ) → IsValid h → IsSafe (send_snapshot h d m)
unfolding send_snapshot
send_snapshot-IsSafe h d m v = elim (Bool-cases (h.live d)) [
  | inr gone ↦ (h, (simp gone refl, v))
  | inl here ↦
      let l = (v.placed d).open_live in
      let still_open : h.closed d ≡ false = ground arith in
      let sent : ℕ → List ℕ = put h.send d (offer 256 (h.send d) m) in
      (
        record h { send = sent },
        (
          simp here (simp still_open refl),
          with_messages-IsValid h h.msg_ch sent v.bounded.msg
              (put-bound h.send d _ (offer-bound 256 (h.send d) m (v.bounded.sends d))
                v.bounded.sends)
              v,
        ),
      )
]

tail-bound : (q : List ℕ) → length q ≤ 256 → length (tail q) ≤ 256
tail-bound [] b = b
tail-bound (m ∷ ms) b = omega arith

step-IsSafe : (h : Hub) (e : Event) → IsValid h → IsSafe (step h e)
unfolding step broadcast write_one
step-IsSafe h connects v = (connect h, (refl, connect-IsValid h v))
step-IsSafe h reg_taken v = (take_reg h h.reg_ch, (refl, take_reg-IsValid h h.reg_ch refl v))
step-IsSafe h unreg_taken v = take_unreg-IsSafe h h.unreg_ch refl v
step-IsSafe h msg_taken v = take_msg-IsSafe h h.msg_ch refl v
step-IsSafe h (snapshots c m) v = send_snapshot-IsSafe h c m v
step-IsSafe h (disconnects c) v = (disconnect h c, (refl, disconnect-IsValid h c v))
step-IsSafe h (writes c) v = (
  write_one h c,
  (
    refl,
    with_messages-IsValid h h.msg_ch _ v.bounded.msg
        (put-bound h.send c _ (tail-bound (h.send c) (v.bounded.sends c)) v.bounded.sends) v,
  ),
)
step-IsSafe h (broadcasts m) v = (
  broadcast h m,
  (
    refl,
    with_messages-IsValid h _ h.send (offer-bound 256 h.msg_ch m v.bounded.msg) v.bounded.sends v,
  ),
)

-- However the hub, the handlers and the writers interleave, none of them panics: no message is sent
-- on a channel that was closed, and no channel is closed twice. All channels stay within their
-- capacity, and a client's channel is open as long as its handler runs. This holds from any valid
-- state, so from the start.
pub steps-IsSafe : (h : Hub) (es : List Event) → IsValid h → IsSafe (steps h es)
unfolding steps
steps-IsSafe h [] v = (h, (refl, v))
steps-IsSafe h (e ∷ es) v =
    let (h', (eq, v')) = step-IsSafe h e v in
    let (h'', (eqs, v'')) = steps-IsSafe h' es v' in (h'', (rw (eq, steps) eqs, v''))

pub new_hub-IsValid : IsValid new_hub
unfolding count
new_hub-IsValid = record {
  placed = λ c. record {
    once = omega arith;
    open_live = omega arith;
    left = λ p. refl;
    later = λ p. (omega arith, refl);
  };
  bounded = record {
    reg = omega arith;
    unreg = omega arith;
    msg = omega arith;
    sends = λ c. omega arith;
  };
}
