-- ===== src/Leaderboard/Hub/Placed.antt =====
-- Where a client stands: waiting, registered or closed.
use iicpc_sh.Prelude.{
  ℕ, ◌+◌, ◌≡◌, ◌≤◌, ◌<◌, arith, inl, inr, Bool, true, false, List, [], ◌∷◌, ◌++◌, ltb, ◌==◌, length,
  length-append, Bool-cases, ltb→lt, ap,
}
use iicpc_sh.Leaderboard.Hub.{Hub, offer, connect, disconnect, take_reg}

abbrev pub bit : Bool → ℕ
bit true = 1
bit false = 0

unfoldable pub count : ℕ → List ℕ → ℕ
count c [] = 0
count c (d ∷ ds) = bit (d == c) + count c ds

pub count-append : (c : ℕ) (xs ys : List ℕ) → count c (xs ++ ys) ≡ count c xs + count c ys
unfolding count
count-append c [] ys = omega arith
count-append c (x ∷ xs) ys = omega (arith, count-append c xs ys)

-- A client is waiting to be registered, registered or closed, once and in one of the three ways; the
-- channel of a handler that runs is open, and a client that waits to leave has no handler.
pub record IsPlaced (h : Hub) (c : ℕ) : Type 0 where
  pub once : count c h.reg_ch + bit (h.clients c) + bit (h.closed c) ≤ 1
  pub open_live : bit (h.live c) + bit (h.closed c) ≤ 1
  pub left : 0 < count c h.unreg_ch → h.live c ≡ false
  pub later :
      h.next ≤ c
      → (count c h.reg_ch + bit (h.clients c) + bit (h.closed c) + count c h.unreg_ch ≡ 0)
        × (h.live c ≡ false)

-- The channels hold no more than their capacity.
pub record AreBounded (h : Hub) : Type 0 where
  pub reg : length h.reg_ch ≤ 64
  pub unreg : length h.unreg_ch ≤ 64
  pub msg : length h.msg_ch ≤ 256
  pub sends : (c : ℕ) → length (h.send c) ≤ 256

pub record IsValid (h : Hub) : Type 0 where
  pub placed : (c : ℕ) → IsPlaced h c
  pub bounded : AreBounded h

pub offer-bound : (n : ℕ) (ch : List ℕ) (x : ℕ) → length ch ≤ n → length (offer n ch x) ≤ n
offer-bound n ch x h = elim (Bool-cases (ltb (length ch) n)) [
  | inl room ↦ rw room (let r = ltb→lt _ _ room in omega (arith, length-append ch (x ∷ [])))
  | inr full ↦ rw full h
]

pub offer-count :
    (n c : ℕ) (ch : List ℕ) (x : ℕ) → count c (offer n ch x) ≤ count c ch + bit (x == c)
unfolding count
offer-count n c ch x = elim (Bool-cases (ltb (length ch) n)) [
  | inl room ↦ rw room (omega (arith, count-append c ch (x ∷ [])))
  | inr full ↦ rw full (omega arith)
]

pub connect-IsValid : (h : Hub) → IsValid h → IsValid (connect h)
unfolding connect count
connect-IsValid h v = elim (Bool-cases (ltb (length h.reg_ch) 64)) [
  | inl room ↦ simp room (record {
    placed = λ c.
        let p = v.placed c in
        let o = p.once in
        let l = p.open_live in
        let left = p.left in
        let later = p.later in
        let n = count-append c h.reg_ch (h.next ∷ []) in
        record {
          once = ground arith;
          open_live = ground arith;
          left = ground arith;
          later = ground arith;
        };
    bounded = record {
      reg = let r = ltb→lt _ _ room in omega (arith, length-append h.reg_ch (h.next ∷ []));
      unreg = v.bounded.unreg;
      msg = v.bounded.msg;
      sends = v.bounded.sends;
    };
  })
  | inr full ↦ simp full (record {
    placed = λ c.
        let p = v.placed c in
        let o = p.once in
        let l = p.open_live in
        let left = p.left in
        let later = p.later in
        let n = offer-count 64 c h.unreg_ch h.next in
        record {
          once = ground arith;
          open_live = ground arith;
          left = ground arith;
          later = ground arith;
        };
    bounded = record {
      reg = v.bounded.reg;
      unreg = offer-bound 64 h.unreg_ch h.next v.bounded.unreg;
      msg = v.bounded.msg;
      sends = v.bounded.sends;
    };
  })
]

pub disconnect-IsValid : (h : Hub) (d : ℕ) → IsValid h → IsValid (disconnect h d)
unfolding disconnect
disconnect-IsValid h d v = elim (Bool-cases (h.live d)) [
  | inr gone ↦ simp gone v
  | inl here ↦ simp here (record {
    placed = λ c.
        let p = v.placed c in
        let o = p.once in
        let l = p.open_live in
        let left = p.left in
        let later = p.later in
        let n = offer-count 64 c h.unreg_ch d in
        let q = (v.placed d).later in
        record {
          once = ground arith;
          open_live = ground arith;
          left = ground arith;
          later = ground arith;
        };
    bounded = record {
      reg = v.bounded.reg;
      unreg = offer-bound 64 h.unreg_ch d v.bounded.unreg;
      msg = v.bounded.msg;
      sends = v.bounded.sends;
    };
  })
]

pub take_reg-IsValid : (h : Hub) (cs : List ℕ) → h.reg_ch ≡ cs → IsValid h → IsValid (take_reg h cs)
unfolding take_reg count
take_reg-IsValid h [] e v = v
take_reg-IsValid h (d ∷ cs) e v = record {
  placed = λ c.
      let p = v.placed c in
      let o = p.once in
      let l = p.open_live in
      let left = p.left in
      let later = p.later in
      let n : count c h.reg_ch ≡ bit (d == c) + count c cs = ap (count c) e in
      record {
        once = ground arith;
        open_live = ground arith;
        left = ground arith;
        later = ground arith;
      };
  bounded = record {
    reg = let b = v.bounded.reg in let n = ap length e in omega arith;
    unreg = v.bounded.unreg;
    msg = v.bounded.msg;
    sends = v.bounded.sends;
  };
}
