-- ===== src/Stub/Heap/Down.antt =====
-- heap.down restores the heap order when one entry may be out of order with its neighbours.
use iicpc_sh.Prelude.{
  ℕ, zero, suc, ◌+◌, ◌*◌, ◌≡◌, ◌≢◌, ◌≤◌, ◌<◌, refl, arith, sym, ◌∙◌, true, false, ◌==◌, Bool-cases,
  inl, inr, if◌then◌else◌, ◌⊎◌, leb, subst,
}
use iicpc_sh.Stub.Types.{Side}
use iicpc_sh.Stub.Heap.{Heap, less_at, swap, child, down_loop, down}
use iicpc_sh.Stub.Heap.Size.{size, size-swap}
use iicpc_sh.Stub.Heap.Priority.{NotAfter, NotAfter-trans, NotAfter-refl, less-NotAfter}
use iicpc_sh.Stub.Heap.Moves.{key, Moves, Moves-refl, Moves-trans, Moves-swap, key-swap}
use iicpc_sh.Stub.Heap.Up.{parent, IsHeap, less_at-key}

-- Only the entry at `i` may be out of order, and its parent comes after none of its children.
pub record DownInv (s : Side) (n : ℕ) (h : Heap) (i : ℕ) : Type 0 where
  pub edges :
      (c : ℕ) → 0 < c → c < n → c ≢ i → parent c ≢ i → NotAfter s (key h (parent c)) (key h c)
  pub bridged :
      (c : ℕ) → 0 < c → c < n → parent c ≡ i → 0 < i → NotAfter s (key h (parent i)) (key h c)

-- The entry at `i` comes after none of its children.
abbrev pub IsSettled : Side → ℕ → Heap → ℕ → Type 0
IsSettled s n h i = (c : ℕ) → 0 < c → c < n → parent c ≡ i → NotAfter s (key h i) (key h c)

-- `child` finds a child of `i` that comes after no other.
record IsChild (s : Side) (n : ℕ) (h : Heap) (i j : ℕ) : Type 0 where
  below : j < n
  up : parent j ≡ i
  later : i < j
  first : (c : ℕ) → 0 < c → c < n → parent c ≡ i → NotAfter s (key h j) (key h c)

child-IsChild :
    (s : Side) (n : ℕ) (h : Heap) (i : ℕ)
    → leb n (2 * i + 1) ≡ false
    → IsChild s n h i (child s h i n)
unfolding child
child-IsChild s n h i room = record {
  below = ground arith;
  up = ground arith;
  later = ground arith;
  first = λ c p q e. ground (
    arith,
    less_at-key s h (2 * i + 1 + 1) (2 * i + 1),
    NotAfter-refl s (key h c),
    less-NotAfter s (key h (2 * i + 1 + 1)) (key h (2 * i + 1)),
  );
}

module _ (s : Side) (n : ℕ) (h : Heap) (i j : ℕ) (fits : n ≤ size h) (inv : DownInv s n h i)
    (kid : IsChild s n h i j) where
  stays-IsSettled : less_at s h j i ≡ false → IsSettled s n h i
  stays-IsSettled stay c p q e =
      NotAfter-trans s (key h i) (key h j) (key h c) (sym (less_at-key s h j i) ∙ stay)
        (kid.first c p q e)

  at : (k : ℕ) → key (swap h i j) k ≡ key h (if j == k then i else if i == k then j else k)
  at = key-swap n h i j (omega (arith, kid.later, kid.below)) kid.below fits

  module _ (sink : less_at s h j i ≡ true) where
    above : NotAfter s (key h j) (key h i)
    above = less-NotAfter s _ _ (sym (less_at-key s h j i) ∙ sink)

    step_edges :
        (c : ℕ)
        → 0 < c
        → c < n
        → c ≢ j
        → parent c ≢ j
        → NotAfter s (key (swap h i j) (parent c)) (key (swap h i j) c)
    step_edges c p q r t = ground (
      arith,
      at c,
      at (parent c),
      inv.edges c,
      inv.bridged j,
      kid.first c,
      kid.up,
      kid.later,
      kid.below,
    )

    step_bridged :
        (c : ℕ)
        → 0 < c
        → c < n
        → parent c ≡ j
        → NotAfter s (key (swap h i j) (parent j)) (key (swap h i j) c)
    step_bridged c p q e = ground (arith, at c, at (parent j), inv.edges c, kid.up, kid.later)

    step-DownInv : DownInv s n (swap h i j) j
    step-DownInv = record { edges = step_edges; bridged = λ c p q e r. step_bridged c p q e }

    -- The edge from `j` to its parent is in order after the swap.
    step_edge : NotAfter s (key (swap h i j) (parent j)) (key (swap h i j) j)
    step_edge = ground (arith, at j, at (parent j), above, kid.up, kid.later)

    settled_below : IsSettled s n (swap h i j) j → IsHeap s n (swap h i j)
    settled_below settled c p q = ground (arith, step_edges c, settled c, step_edge)

-- Where the loop of `down` stops: it has moved nothing and `i` is settled, or the heap is in order.
abbrev pub Stops : Side → ℕ → Heap → ℕ → Heap × ℕ → Type 0
Stops s n h i (h', i') = ((i' ≡ i) × (h' ≡ h) × IsSettled s n h i) ⊎ ((i < i') × IsHeap s n h')

-- After a step from `i` to `j` the heap is in order wherever the rest of the loop stops.
Stops-IsHeap :
    (s : Side) (n : ℕ) (h : Heap) (i j : ℕ) (r : Heap × ℕ)
    → i < j
    → (IsSettled s n h j → IsHeap s n h)
    → Stops s n h j r
    → (i < r.1) × IsHeap s n r.0
Stops-IsHeap s n h i j r later in_order (inl (e, same, settled)) =
    (omega (arith, e), subst (IsHeap s n) (sym same) (in_order settled))
Stops-IsHeap s n h i j r later in_order (inr (far, heap)) = (omega arith, heap)

down_loop-Stops :
    (fuel : ℕ) (s : Side) (n : ℕ) (h : Heap) (i : ℕ)
    → n ≤ size h
    → n < fuel + i
    → DownInv s n h i
    → Moves n h (down_loop s fuel h i n).0 × Stops s n h i (down_loop s fuel h i n)
unfolding down_loop
down_loop-Stops zero s n h i fits f inv =
    (Moves-refl n h, inl (refl, refl, λ c p q e. absurd (omega arith)))
down_loop-Stops (suc fuel) s n h i fits f inv = elim (Bool-cases (leb n (2 * i + 1))) [
  | inl leaf ↦ rw leaf (Moves-refl n h, inl (refl, refl, λ c p q e. absurd (ground arith)))
  | inr room ↦
      let j = child s h i n in
      let kid = child-IsChild s n h i room in
      rw room (elim (Bool-cases (less_at s h j i)) [
        | inr stay ↦
            rw stay (Moves-refl n h, inl (refl, refl, stays-IsSettled s n h i j fits inv kid stay))
        | inl sink ↦
            let swapped = swap h i j in
            let (moves, stops) =
              down_loop-Stops fuel s n swapped j (omega (arith, size-swap h i j))
                (omega (arith, kid.later)) (step-DownInv s n h i j fits inv kid sink) in
            rw sink (
              Moves-trans n h swapped _
                  (Moves-swap n h i j (omega (arith, kid.later, kid.below)) kid.below fits) moves,
              inr (
                  Stops-IsHeap s n swapped i j _ kid.later
                    (settled_below s n h i j fits inv kid sink) stops),
            )
      ])
]

-- heap.down rearranges the heap below `n`. It reports false and changes nothing where the entry at
-- `i` comes after none of its children, and otherwise leaves the heap in order.
pub down-outcome :
    (s : Side) (n : ℕ) (h : Heap) (i : ℕ)
    → n ≤ size h
    → DownInv s n h i
    → Moves n h (down s h i n).0
      × (((down s h i n).1 ≡ false) × ((down s h i n).0 ≡ h) × IsSettled s n h i
          ⊎ ((down s h i n).1 ≡ true) × IsHeap s n (down s h i n).0)
unfolding down
down-outcome s n h i fits inv =
    let (moves, stops) = down_loop-Stops (suc n) s n h i fits (omega arith) inv in
    (
      moves,
      elim stops [
        | inl (e, same, settled) ↦ inl (ground (arith, e), same, settled)
        | inr (far, heap) ↦ inr (ground (arith, far), heap)
      ],
    )
