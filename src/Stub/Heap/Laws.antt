-- ===== src/Stub/Heap/Laws.antt =====
-- The laws of the heap operations: what a client of container/heap may rely on.
use iicpc_sh.Prelude.{
  ℕ, zero, suc, ◌-◌, ◌≡◌, ◌≢◌, ◌≤◌, ◌<◌, arith, sym, ◌∙◌, ◌==◌, Bool-cases, inl, inr, if◌then◌else◌,
  ◌⊎◌, subst, some, ap, length, get_or-append, length-append, [], ◌∷◌, ◌++◌,
}
use iicpc_sh.Stub.Types.{Side}
use iicpc_sh.Stub.Heap.{Heap, ptr_at, swap, down, up, drop_last, pop, fix, remove, push, set_index}
use iicpc_sh.Stub.Heap.Size.{size, size-swap}
use iicpc_sh.Stub.Heap.Priority.{NotAfter, NotAfter-trans, NotAfter-refl, erase}
use iicpc_sh.Stub.Heap.Moves.{
  key, IsIndexed, Moves, Moves-refl, Moves-trans, Moves-swap, ptr_at-swap,
}
use iicpc_sh.Stub.Heap.Up.{parent, IsHeap, UpInv, up-IsHeap}
use iicpc_sh.Stub.Heap.Down.{DownInv, down-outcome}
use iicpc_sh.Stub.Heap.Remove.{
  IsOrdered, Removed, sift, sift-IsHeap, fix-IsHeap, swapped-DownInv, swapped-Moves, Moves-wider,
  drop-Removed,
}

-- The root of a heap comes after no entry.
root_first_below :
    (fuel : ℕ) (s : Side) (n : ℕ) (h : Heap) (k : ℕ)
    → IsHeap s n h
    → k < fuel
    → k < n
    → NotAfter s (key h 0) (key h k)
root_first_below zero s n h k heap f p = absurd (omega arith)
root_first_below (suc fuel) s n h k heap f p = elim (Bool-cases (k == 0)) [
  | inl root ↦ ground (arith, NotAfter-refl s (key h 0))
  | inr inner ↦
      NotAfter-trans s (key h 0) (key h (parent k)) (key h k)
        (root_first_below fuel s n h (parent k) heap (ground arith) (ground arith))
        (heap k (ground arith) p)
]

pub root_first :
    (s : Side) (h : Heap) (k : ℕ) → IsOrdered s h → k < size h → NotAfter s (key h 0) (key h k)
root_first s h k ord p = root_first_below (suc k) s (size h) h k ord.heap (omega arith) p

module _ (s : Side) (h : Heap) (n i : ℕ) (full : size h ≡ suc n) (ord : IsOrdered s h) where
  swapped_last : i < suc n → ptr_at (swap h i n) n ≡ ptr_at h i
  swapped_last p = ground (arith, full, ptr_at-swap h i n n)

  short_IsHeap : IsHeap s n h
  short_IsHeap c p q = ord.heap c p (omega (arith, full))

  remove_inner : i < n → Removed s h i (drop_last (sift s (swap h i n) i n))
  remove_inner inside =
      let swapped = swap h i n in
      let fits : n ≤ size swapped = omega (arith, size-swap h i n, full) in
      let (moves, heap) =
        sift-IsHeap s n swapped i fits inside (swapped-DownInv s h n i full inside ord) in
      let moved =
        Moves-trans (suc n) h swapped _ (swapped-Moves s h n i full inside ord)
          (Moves-wider n swapped _ (omega (arith, size-swap h i n, full)) moves) in
      drop-Removed s h _ n i full ord moved
        (moves.above n (omega arith) ∙ swapped_last (omega arith)) heap (omega (arith, full))

-- heap.Remove at an index inside an ordered heap leaves an ordered heap of the same orders less that
-- one, with right indices, and touches no order outside of the heap.
pub remove-Removed :
    (s : Side) (h : Heap) (i : ℕ) → IsOrdered s h → i < size h → Removed s h i (remove s h i)
unfolding remove
remove-Removed s h i ord inside = elim (Bool-cases (size h - 1 == i)) [
  | inl last ↦ rw last (
      drop-Removed s h h (size h - 1) i (omega arith) ord (Moves-refl _ h) (ground arith)
        (short_IsHeap s h (size h - 1) i (omega arith) ord) inside)
  | inr inner ↦ rw inner (remove_inner s h (size h - 1) i (omega arith) ord (ground arith))
]

module _ (s : Side) (h : Heap) (n : ℕ) (full : size h ≡ suc n) (ord : IsOrdered s h) where
  pop-DownInv : DownInv s n (swap h 0 n) 0
  pop-DownInv = elim (Bool-cases (n == 0)) [
    | inl lone ↦ record {
      edges = λ c p q r t. absurd (ground arith);
      bridged = λ c p q e r. absurd (omega arith);
    }
    | inr more ↦ swapped-DownInv s h n 0 full (ground arith) ord
  ]

  pop-sifted :
      Moves n (swap h 0 n) (down s (swap h 0 n) 0 n).0 × IsHeap s n (down s (swap h 0 n) 0 n).0
  pop-sifted =
      let (moves, outcome) =
        down-outcome s n (swap h 0 n) 0 (omega (arith, size-swap h 0 n, full)) pop-DownInv in
      (
        moves,
        elim outcome [
          | inl (stay, same, settled) ↦
              subst (IsHeap s n) (sym same)
                (λ c p q. ground (arith, settled c, pop-DownInv.edges c))
          | inr (moved, heap) ↦ heap
        ],
      )

  popped_root : Removed s h 0 (drop_last (down s (swap h 0 n) 0 n).0)
  popped_root =
      let (moves, heap) = pop-sifted in
      let swaps = Moves-swap (suc n) h 0 n (omega arith) (omega arith) (omega (arith, full)) in
      let wide = Moves-wider n (swap h 0 n) _ (omega (arith, size-swap h 0 n, full)) moves in
      drop-Removed s h _ n 0 full ord (Moves-trans (suc n) h (swap h 0 n) _ swaps wide)
        (moves.above n (omega arith) ∙ swapped_last s h n 0 full ord (omega arith)) heap
        (omega (arith, full))

-- heap.Pop of an ordered heap that is not empty leaves an ordered heap of the same orders less its
-- root, with right indices, and touches no order outside of the heap.
pub pop-Removed : (s : Side) (h : Heap) → IsOrdered s h → 0 < size h → Removed s h 0 (pop s h)
unfolding pop
pop-Removed s h ord some_left = popped_root s h (size h - 1) (omega arith) ord

-- `h'` is `h` with the order at `p` added.
pub record Pushed (s : Side) (h : Heap) (p : ℕ) (h' : Heap) : Type 0 where
  pub ordered : IsOrdered s h'
  pub grown : size h' ≡ suc (size h)
  pub kept : (q : ℕ) → erase (h'.mem q) ≡ erase (h.mem q)
  pub from :
      (k : ℕ)
      → k < size h'
      → (ptr_at h' k ≡ p) ⊎ ((k' : ℕ) × (k' < size h) × (ptr_at h' k ≡ ptr_at h k'))
  pub to : (k : ℕ) → k < size h → (k' : ℕ) × (k' < size h') × (ptr_at h k ≡ ptr_at h' k')
  pub added : (k' : ℕ) × (k' < size h') × (ptr_at h' k' ≡ p)
  pub outside : (q : ℕ) → ((k : ℕ) → k < size h → ptr_at h k ≢ q) → q ≢ p → h'.mem q ≡ h.mem q

module _ (s : Side) (h : Heap) (p : ℕ) (ord : IsOrdered s h)
    (fresh : (k : ℕ) → k < size h → ptr_at h k ≢ p) where
  abbrev appended : Heap
  appended = record { mem = set_index h.mem p (some (length h.arr)); arr = h.arr ++ (p ∷ []) }

  size-appended : size appended ≡ suc (size h)
  size-appended = omega (arith, length-append {0} h.arr (p ∷ []))

  ptr_at-appended :
      (k : ℕ) → k ≤ size h → ptr_at appended k ≡ (if k == size h then p else ptr_at h k)
  ptr_at-appended k q = get_or-append h.arr p k 0 q

  erase-appended : (q : ℕ) → erase (appended.mem q) ≡ erase (h.mem q)
  erase-appended q = ground arith

  key-appended : (k : ℕ) → k < size h → key appended k ≡ key h k
  key-appended k q =
      ap (λ x. erase (appended.mem x)) (ground (arith, ptr_at-appended k (omega arith)))
      ∙ erase-appended (ptr_at h k)

  appended-UpInv : UpInv s (suc (size h)) appended (size h)
  appended-UpInv = record {
    edges = λ c q r t.
        subst (λ a. NotAfter s a (key appended c)) (sym (key-appended (parent c) (omega arith)))
          (subst (λ b. NotAfter s (key h (parent c)) b) (sym (key-appended c (omega arith)))
            (ord.heap c q (omega arith)));
    bridged = λ c q r e t. absurd (omega arith);
  }

  appended-IsIndexed : IsIndexed appended
  appended-IsIndexed k q = ground (
    arith,
    ptr_at-appended k (omega (arith, size-appended)),
    ord.indexed k,
    fresh k,
    size-appended,
  )

  push-parts :
      IsHeap s (suc (size h)) (up s appended (size h))
      × Moves (suc (size h)) appended (up s appended (size h))
  push-parts =
      up-IsHeap s (suc (size h)) appended (size h) (omega (arith, size-appended)) (omega arith)
        appended-UpInv

  pushed-size : size (up s appended (size h)) ≡ suc (size h)
  pushed-size = push-parts.1.size ∙ size-appended

  pushed-from :
      (k : ℕ)
      → k < size (up s appended (size h))
      → (ptr_at (up s appended (size h)) k ≡ p)
        ⊎ ((k' : ℕ) × (k' < size h) × (ptr_at (up s appended (size h)) k ≡ ptr_at h k'))
  pushed-from k q =
      let (k', r, e) = push-parts.1.from k (omega (arith, pushed-size)) in
      elim (Bool-cases (k' == size h)) [
        | inl new ↦ inl (e ∙ ground (arith, ptr_at-appended k' (omega arith)))
        | inr old ↦ inr (k', ground arith, e ∙ ground (arith, ptr_at-appended k' (omega arith)))
      ]

  pushed-to :
      (k : ℕ)
      → k < size h
      → (k' : ℕ) × (k' < size (up s appended (size h)))
        × (ptr_at h k ≡ ptr_at (up s appended (size h)) k')
  pushed-to k q =
      let (k', r, e) = push-parts.1.to k (omega arith) in
      (k', omega (arith, pushed-size), ground (arith, ptr_at-appended k (omega arith)))

  pushed-added :
      (k' : ℕ) × (k' < size (up s appended (size h))) × (ptr_at (up s appended (size h)) k' ≡ p)
  pushed-added =
      let (k', r, e) = push-parts.1.to (size h) (omega arith) in
      (k', omega (arith, pushed-size), ground (arith, ptr_at-appended (size h) (omega arith)))

  pushed-outside :
      (q : ℕ)
      → ((k : ℕ) → k < size h → ptr_at h k ≢ q)
      → q ≢ p
      → (up s appended (size h)).mem q ≡ h.mem q
  pushed-outside q a ne =
      push-parts.1.outside q (λ k r. ground (arith, a k, ptr_at-appended k (omega arith)))
      ∙ ground arith

  -- heap.Push of an order that is not in the ordered heap leaves an ordered heap of the same orders
  -- and that one, with right indices, and touches no other order.
  pub push-Pushed : Pushed s h p (push s h p)
  unfolding push
  push-Pushed = record {
    ordered = record {
      heap = subst (λ k. IsHeap s k (up s appended (size h))) (sym pushed-size) push-parts.0;
      indexed = push-parts.1.indexed appended-IsIndexed;
    };
    grown = pushed-size;
    kept = λ q. push-parts.1.kept q ∙ erase-appended q;
    from = pushed-from;
    to = pushed-to;
    added = pushed-added;
    outside = pushed-outside;
  }

-- heap.Fix at the root of a heap, where the order at the root has kept its key.
pub fix-root :
    (s : Side) (h : Heap)
    → IsOrdered s h
    → 0 < size h
    → Moves (size h) h (fix s h 0) × IsOrdered s (fix s h 0)
fix-root s h ord some_left =
    let (moves, heap) = fix-IsHeap s h 0 some_left (record {
      edges = λ c p q r t. ord.heap c p q;
      bridged = λ c p q e r. absurd (omega arith);
    }) in
    (
      moves,
      record {
        heap = subst (λ k. IsHeap s k (fix s h 0)) (sym moves.size) heap;
        indexed = moves.indexed ord.indexed;
      },
    )
