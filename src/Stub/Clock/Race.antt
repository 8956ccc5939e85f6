-- ===== src/Stub/Clock/Race.antt =====
-- The compare-and-swap loop of `now` in services/stub/main.go, as several goroutines run it at once.
-- A step is one atomic access of `lastTimestamp` by one goroutine; `issued` lists the timestamps
-- that calls of `now` have returned, the latest first.
use iicpc_sh.Prelude.{
  ℕ, ℤ, pos, ◌≡◌, ◌≢◌, ◌<ℤ◌, ◌==◌, if◌then◌else◌, List, [], ◌∷◌, All, refl, arith, inl, inr, ◌⊎◌,
  sym, subst, Bool-cases,
}
use iicpc_sh.Stub.Clock.{max_int64, candidate}

-- A goroutine outside `now`, about to load with its `ts`, or about to swap from `old` to `ts`.
pub data Goroutine : Type 0 where
  idle : Goroutine
  loading : ℤ → Goroutine
  swapping : ℤ → ℤ → Goroutine

pub record Race : Type 0 where
  pub last_timestamp : ℤ
  pub issued : List ℤ
  pub at : ℕ → Goroutine

abbrev pub move : (ℕ → Goroutine) → ℕ → Goroutine → ℕ → Goroutine
move at g s i = if g == i then s else at i

pub data Step : Race → Race → Type 0 where
  -- `ts := time.Now().UnixNano()`
  read_clock :
      (r : Race) (g : ℕ) (ts : ℤ)
      → r.at g ≡ idle
      → Step r (record r { at = move r.at g (loading ts) })
  -- `old := lastTimestamp.Load()` and the choice of `ts`
  load :
      (r : Race) (g : ℕ) (ts : ℤ)
      → r.at g ≡ loading ts
      → Step r (record r {
        at = move r.at g (swapping r.last_timestamp (candidate ts r.last_timestamp));
      })
  -- `CompareAndSwap` finds `old`, and `now` returns `ts`
  swapped :
      (r : Race) (g : ℕ) (old ts : ℤ)
      → r.at g ≡ swapping old ts
      → r.last_timestamp ≡ old
      → Step r (record { last_timestamp = ts; issued = ts ∷ r.issued; at = move r.at g idle })
  -- another goroutine came first, and the loop goes on with the same `ts`
  missed :
      (r : Race) (g : ℕ) (old ts : ℤ)
      → r.at g ≡ swapping old ts
      → r.last_timestamp ≢ old
      → Step r (record r { at = move r.at g (loading ts) })

pub data Reach : Race → Type 0 where
  start :
      {r : Race} → r.last_timestamp ≡ pos 0 → r.issued ≡ [] → ((g : ℕ) → r.at g ≡ idle) → Reach r
  next : {r r' : Race} → Reach r → Step r r' → Reach r'

-- The latest first, each later than all before it.
abbrev pub AreDecreasing : List ℤ → Type 0
AreDecreasing [] = Unit {0}
AreDecreasing (t ∷ ts) = All (λ u. u <ℤ t) ts × AreDecreasing ts

-- No timestamp so far is the greatest int64.
abbrev pub AreBelow : List ℤ → Type 0
AreBelow = All (λ t. t <ℤ max_int64)

-- What a goroutine that is about to swap knows.
abbrev Ready : Goroutine → Type 0
Ready idle = Unit {0}
Ready (loading ts) = Unit {0}
Ready (swapping old ts) = old <ℤ max_int64 → old <ℤ ts

record Inv (r : Race) : Type 0 where
  ready : (g : ℕ) → Ready (r.at g)
  below : AreBelow r.issued → r.last_timestamp <ℤ max_int64
  latest : AreBelow r.issued → All (λ u. u ≡ r.last_timestamp ⊎ u <ℤ r.last_timestamp) r.issued
  decreasing : AreBelow r.issued → AreDecreasing r.issued

candidate_later : (ts old : ℤ) → old <ℤ max_int64 → old <ℤ candidate ts old
unfolding candidate
candidate_later ts old h = ground arith

move-Ready :
    (at : ℕ → Goroutine) (g : ℕ) (s : Goroutine)
    → Ready s
    → ((i : ℕ) → Ready (at i))
    → (i : ℕ) → Ready (move at g s i)
move-Ready at g s h k i = elim (Bool-cases (g == i)) [ inl e ↦ rw e h | inr e ↦ rw e (k i) ]

still_before :
    (ts : List ℤ) (old new : ℤ)
    → old <ℤ new
    → All (λ u. u ≡ old ⊎ u <ℤ old) ts
    → All (λ u. u <ℤ new) ts
still_before [] old new h k = tt
still_before (u ∷ ts) old new h k = (ground (arith, k.0), still_before ts old new h k.1)

before_or_same : (ts : List ℤ) (new : ℤ) → All (λ u. u <ℤ new) ts → All (λ u. u ≡ new ⊎ u <ℤ new) ts
before_or_same [] new h = tt
before_or_same (u ∷ ts) new h = (inr h.0, before_or_same ts new h.1)

Step-Inv : {r r' : Race} → Step r r' → Inv r → Inv r'
Step-Inv (read_clock r g ts e) inv = record {
  ready = move-Ready r.at g (loading ts) tt inv.ready;
  below = inv.below;
  latest = inv.latest;
  decreasing = inv.decreasing;
}
Step-Inv (load r g ts e) inv = record {
  ready =
      move-Ready r.at g (swapping r.last_timestamp (candidate ts r.last_timestamp))
        (candidate_later ts r.last_timestamp) inv.ready;
  below = inv.below;
  latest = inv.latest;
  decreasing = inv.decreasing;
}
Step-Inv (missed r g old ts e ne) inv = record {
  ready = move-Ready r.at g (loading ts) tt inv.ready;
  below = inv.below;
  latest = inv.latest;
  decreasing = inv.decreasing;
}
Step-Inv (swapped r g old ts e same) inv =
    let grows = λ (h : AreBelow r.issued).
      let old_below = subst (λ x. x <ℤ max_int64) same (inv.below h) in
      subst (λ x. x <ℤ ts) (sym same) (subst Ready e (inv.ready g) old_below) in
    let before = λ (h : AreBelow r.issued).
      still_before r.issued r.last_timestamp ts (grows h) (inv.latest h) in
    record {
      ready = move-Ready r.at g idle tt inv.ready;
      below = λ h. h.0;
      latest = λ h. (inl refl, before_or_same r.issued ts (before h.1));
      decreasing = λ h. (before h.1, inv.decreasing h.1);
    }

Reach-Inv : {r : Race} → Reach r → Inv r
Reach-Inv (start last none_yet all_idle) = record {
  ready = λ g. rw (all_idle g) tt;
  below = λ h. rw last (omega arith);
  latest = λ h. rw none_yet tt;
  decreasing = λ h. rw none_yet tt;
}
Reach-Inv (next r st) = Step-Inv st (Reach-Inv r)

-- Whatever the interleaving of the goroutines, each call of `now` returns a later timestamp than all
-- calls that returned before it, until one returns the greatest int64.
pub Reach-AreDecreasing : {r : Race} → Reach r → AreBelow r.issued → AreDecreasing r.issued
Reach-AreDecreasing reached below = (Reach-Inv reached).decreasing below
