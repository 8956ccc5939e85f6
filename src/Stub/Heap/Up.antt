-- ===== src/Stub/Heap/Up.antt =====
-- heap.up restores the heap order when one entry may come before its parent.
use iicpc_sh.Prelude.{
  ℕ, zero, suc, ◌-◌, ◌/◌, ◌≡◌, ◌≢◌, ◌≤◌, ◌<◌, arith, sym, ◌∙◌, true, false, ◌==◌, Bool-cases, inl,
  inr, if◌then◌else◌,
}
use iicpc_sh.Stub.Types.{Side}
use iicpc_sh.Stub.Heap.{Heap, less_at, less, swap, up_loop, up}
use iicpc_sh.Stub.Heap.Size.{size, size-swap}
use iicpc_sh.Stub.Heap.Priority.{NotAfter, NotAfter-trans, less-NotAfter, less-erase}
use iicpc_sh.Stub.Heap.Moves.{key, Moves, Moves-refl, Moves-trans, Moves-swap, key-swap}

abbrev pub parent : ℕ → ℕ
parent c = (c - 1) / 2

-- No entry below `n` comes before its parent.
abbrev pub IsHeap : Side → ℕ → Heap → Type 0
IsHeap s n h = (c : ℕ) → 0 < c → c < n → NotAfter s (key h (parent c)) (key h c)

-- Only the entry at `j` may come before its parent, which comes before no child of `j` either.
pub record UpInv (s : Side) (n : ℕ) (h : Heap) (j : ℕ) : Type 0 where
  pub edges : (c : ℕ) → 0 < c → c < n → c ≢ j → NotAfter s (key h (parent c)) (key h c)
  pub bridged :
      (c : ℕ) → 0 < c → c < n → parent c ≡ j → 0 < j → NotAfter s (key h (parent j)) (key h c)

pub less_at-key : (s : Side) (h : Heap) (i j : ℕ) → less_at s h i j ≡ less s (key h i) (key h j)
less_at-key s h i j = sym (less-erase s _ _)

module _ (s : Side) (n : ℕ) (h : Heap) (j : ℕ) (fits : n ≤ size h) (below : j < n) (pos : 0 < j)
    (inv : UpInv s n h j) (rise : less_at s h j (parent j) ≡ true) where
  at :
      (k : ℕ)
      → key (swap h (parent j) j) k
        ≡ key h (if j == k then parent j else if parent j == k then j else k)
  at = key-swap n h (parent j) j (omega arith) below fits

  first : NotAfter s (key h j) (key h (parent j))
  first = less-NotAfter s _ _ (sym (less_at-key s h j (parent j)) ∙ rise)

  step_edges :
      (c : ℕ)
      → 0 < c
      → c < n
      → c ≢ parent j
      → NotAfter s (key (swap h (parent j) j) (parent c)) (key (swap h (parent j) j) c)
  step_edges c p q r = ground (
    arith,
    at c,
    at (parent c),
    first,
    inv.edges c,
    inv.bridged c,
    NotAfter-trans s (key h j) (key h (parent j)) (key h c),
  )

  step_bridged :
      (c : ℕ)
      → 0 < c
      → c < n
      → parent c ≡ parent j
      → 0 < parent j
      → NotAfter s (key (swap h (parent j) j) (parent (parent j))) (key (swap h (parent j) j) c)
  step_bridged c p q e r = ground (
    arith,
    at c,
    at (parent (parent j)),
    inv.edges c,
    inv.edges (parent j),
    NotAfter-trans s (key h (parent (parent j))) (key h (parent j)) (key h c),
  )

  step-UpInv : UpInv s n (swap h (parent j) j) (parent j)
  step-UpInv = record { edges = step_edges; bridged = step_bridged }

settled-IsHeap :
    (s : Side) (n : ℕ) (h : Heap) (j : ℕ)
    → UpInv s n h j
    → less_at s h j (parent j) ≡ false
    → IsHeap s n h
settled-IsHeap s n h j inv settled c p q = ground (arith, inv.edges c, less_at-key s h j (parent j))

up_loop-IsHeap :
    (fuel : ℕ) (s : Side) (n : ℕ) (h : Heap) (j : ℕ)
    → n ≤ size h
    → j < n
    → j < fuel
    → UpInv s n h j
    → IsHeap s n (up_loop s fuel h j) × Moves n h (up_loop s fuel h j)
unfolding up_loop
up_loop-IsHeap zero s n h j fits below f inv = absurd (omega arith)
up_loop-IsHeap (suc fuel) s n h j fits below f inv = elim (Bool-cases (parent j == j)) [
  | inl root ↦ rw root (λ c p q. inv.edges c p q (ground arith), Moves-refl n h)
  | inr inner ↦ rw inner (elim (Bool-cases (less_at s h j (parent j))) [
    | inr settled ↦ rw settled (settled-IsHeap s n h j inv settled, Moves-refl n h)
    | inl rise ↦
        let (heap, moves) =
          up_loop-IsHeap fuel s n (swap h (parent j) j) (parent j)
            (omega (arith, size-swap h (parent j) j)) (omega arith) (ground arith)
            (step-UpInv s n h j fits below (ground arith) inv rise) in
        rw rise
          (heap, Moves-trans n h _ _ (Moves-swap n h (parent j) j (omega arith) below fits) moves)
  ])
]

-- heap.up makes a heap of one whose entry at `j` may come before its parent.
pub up-IsHeap :
    (s : Side) (n : ℕ) (h : Heap) (j : ℕ)
    → n ≤ size h
    → j < n
    → UpInv s n h j
    → IsHeap s n (up s h j) × Moves n h (up s h j)
unfolding up
up-IsHeap s n h j fits below inv = up_loop-IsHeap (suc j) s n h j fits below (omega arith) inv
