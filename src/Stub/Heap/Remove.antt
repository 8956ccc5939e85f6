-- ===== src/Stub/Heap/Remove.antt =====
-- heap.Pop, heap.Remove and heap.Fix keep the heap in order and every place known.
use iicpc_sh.Prelude.{
  ℕ, suc, ◌-◌, ◌≡◌, ◌≢◌, ◌≤◌, ◌<◌, arith, sym, ◌∙◌, ◌==◌, Bool-cases, inl, inr, if◌then◌else◌,
  subst, none, ap, get_or-take,
}
use iicpc_sh.Stub.Types.{Side}
use iicpc_sh.Stub.Heap.{Heap, ptr_at, swap, down, up, drop_last, fix}
use iicpc_sh.Stub.Heap.Size.{size, size-drop_last}
use iicpc_sh.Stub.Heap.Priority.{NotAfter, NotAfter-trans, erase}
use iicpc_sh.Stub.Heap.Moves.{key, IsIndexed, Moves, Moves-swap, key-swap}
use iicpc_sh.Stub.Heap.Up.{parent, IsHeap, UpInv, up-IsHeap}
use iicpc_sh.Stub.Heap.Down.{DownInv, IsSettled, down-outcome}

-- A heap as the engine keeps it: in order, each order knowing its place.
pub record IsOrdered (s : Side) (h : Heap) : Type 0 where
  pub heap : IsHeap s (size h) h
  pub indexed : IsIndexed h

-- `h'` is `h` without the entry at `i`.
pub record Removed (s : Side) (h : Heap) (i : ℕ) (h' : Heap) : Type 0 where
  pub ordered : IsOrdered s h'
  pub shrunk : size h ≡ suc (size h')
  pub kept : (p : ℕ) → erase (h'.mem p) ≡ erase (h.mem p)
  pub from :
      (k : ℕ)
      → k < size h'
      → (k' : ℕ) × (k' < size h) × (ptr_at h' k ≡ ptr_at h k') × (ptr_at h' k ≢ ptr_at h i)
  pub to :
      (k : ℕ)
      → k < size h
      → ptr_at h k ≢ ptr_at h i
      → (k' : ℕ) × (k' < size h') × (ptr_at h k ≡ ptr_at h' k')
  pub outside : (p : ℕ) → ((k : ℕ) → k < size h → ptr_at h k ≢ p) → h'.mem p ≡ h.mem p

ptr_at-drop_last :
    (h : Heap) (n k : ℕ) → size h ≡ suc n → k < n → ptr_at (drop_last h) k ≡ ptr_at h k
unfolding drop_last
ptr_at-drop_last h n k e p = get_or-take (size h - 1) h.arr k 0 (omega (arith, e))

mem-drop_last :
    (h : Heap) (n p : ℕ)
    → size h ≡ suc n
    → (drop_last h).mem p ≡ (if ptr_at h n == p then record (h.mem p) { index = none } else h.mem p)
unfolding drop_last
mem-drop_last h n p e = ground arith

distinct :
    (h : Heap) (i j : ℕ) → IsIndexed h → i < size h → j < size h → i ≢ j → ptr_at h i ≢ ptr_at h j
distinct h i j inv p q r e = ground (arith, inv i, inv j)

erase-drop_last :
    (h : Heap) (n p : ℕ) → size h ≡ suc n → erase ((drop_last h).mem p) ≡ erase (h.mem p)
erase-drop_last h n p e = ground (arith, mem-drop_last h n p e)

key-drop_last : (h : Heap) (n k : ℕ) → size h ≡ suc n → k < n → key (drop_last h) k ≡ key h k
key-drop_last h n k e p =
    ap (λ x. erase ((drop_last h).mem x)) (ptr_at-drop_last h n k e p) ∙ erase-drop_last h n _ e

-- Dropping the last entry of a rearrangement in which the entries below it are in order.
module _ (s : Side) (h h2 : Heap) (n i : ℕ) (full : size h ≡ suc n) (ord : IsOrdered s h)
    (m : Moves (suc n) h h2) (last : ptr_at h2 n ≡ ptr_at h i) (heap : IsHeap s n h2) where
  full2 : size h2 ≡ suc n
  full2 = m.size ∙ full

  indexed2 : IsIndexed h2
  indexed2 = m.indexed ord.indexed

  dropped : size (drop_last h2) ≡ n
  dropped = omega (arith, size-drop_last h2, full2)

  drop-ptr : (k : ℕ) → k < n → ptr_at (drop_last h2) k ≡ ptr_at h2 k
  drop-ptr k p = ptr_at-drop_last h2 n k full2 p

  drop-IsHeap : IsHeap s n (drop_last h2)
  drop-IsHeap c p q =
      subst (λ a. NotAfter s a (key (drop_last h2) c))
        (sym (key-drop_last h2 n (parent c) full2 (omega arith)))
        (subst (λ b. NotAfter s (key h2 (parent c)) b) (sym (key-drop_last h2 n c full2 q))
          (heap c p q))

  drop-distinct : (k : ℕ) → k < n → ptr_at h2 k ≢ ptr_at h2 n
  drop-distinct k p =
      distinct h2 k n indexed2 (omega (arith, full2)) (omega (arith, full2)) (omega arith)

  drop-IsIndexed : IsIndexed (drop_last h2)
  drop-IsIndexed k p = ground (
    arith,
    drop-ptr k (omega (arith, dropped)),
    mem-drop_last h2 n (ptr_at h2 k) full2,
    drop-distinct k (omega (arith, dropped)),
    indexed2 k (omega (arith, dropped, full2)),
  )

  drop-from :
      (k : ℕ)
      → k < size (drop_last h2)
      → (k' : ℕ) × (k' < size h)
        × (ptr_at (drop_last h2) k ≡ ptr_at h k')
        × (ptr_at (drop_last h2) k ≢ ptr_at h i)
  drop-from k p =
      let below : k < n = omega (arith, dropped) in
      let (k', q, e) = m.from k (omega arith) in
      (
        k',
        omega (arith, full),
        drop-ptr k below ∙ e,
        λ same. drop-distinct k below (sym (drop-ptr k below) ∙ same ∙ sym last),
      )

  drop-to :
      (k : ℕ)
      → k < size h
      → ptr_at h k ≢ ptr_at h i
      → (k' : ℕ) × (k' < size (drop_last h2)) × (ptr_at h k ≡ ptr_at (drop_last h2) k')
  drop-to k p other =
      let (k', q, e) = m.to k (omega (arith, full)) in
      let below : k' < n = ground (arith, last) in
      (k', omega (arith, dropped), e ∙ sym (drop-ptr k' below))

  drop-outside :
      i < size h
      → (p : ℕ) → ((k : ℕ) → k < size h → ptr_at h k ≢ p)
      → (drop_last h2).mem p ≡ h.mem p
  drop-outside i_in p a =
      ground (
        arith,
        mem-drop_last h2 n p full2,
        last,
        a i,
        m.outside p (λ k q. a k (omega (arith, full))),
      )

  pub drop-Removed : i < size h → Removed s h i (drop_last h2)
  drop-Removed i_in = record {
    ordered = record {
      heap = subst (λ k. IsHeap s k (drop_last h2)) (sym dropped) drop-IsHeap;
      indexed = drop-IsIndexed;
    };
    shrunk = omega (arith, dropped, full);
    kept = λ p. erase-drop_last h2 n p full2 ∙ m.kept p;
    from = drop-from;
    to = drop-to;
    outside = drop-outside i_in;
  }

-- The last entry swapped into place `i`: only that place may be out of order.
module _ (s : Side) (h : Heap) (n i : ℕ) (full : size h ≡ suc n) (inside : i < n)
    (ord : IsOrdered s h) where
  at : (k : ℕ) → key (swap h i n) k ≡ key h (if n == k then i else if i == k then n else k)
  at = key-swap (suc n) h i n (omega arith) (omega arith) (omega (arith, full))

  pub swapped-DownInv : DownInv s n (swap h i n) i
  swapped-DownInv = record {
    edges = λ c p q r t. ground (arith, at c, at (parent c), ord.heap c, full);
    bridged = λ c p q e r. ground (
      arith,
      at c,
      at (parent i),
      ord.heap c,
      ord.heap i,
      full,
      NotAfter-trans s (key h (parent i)) (key h i) (key h c),
    );
  }

  pub swapped-Moves : Moves (suc n) h (swap h i n)
  swapped-Moves = Moves-swap (suc n) h i n (omega arith) (omega arith) (omega (arith, full))

pub Moves-wider : (n : ℕ) (h h' : Heap) → n < size h → Moves n h h' → Moves (suc n) h h'
Moves-wider n h h' fits m = record {
  size = m.size;
  kept = m.kept;
  indexed = m.indexed;
  from = λ k p. elim (Bool-cases (k == n)) [
    | inl e ↦ (k, p, m.above k (ground arith))
    | inr e ↦ let (k', q, e') = m.from k (ground arith) in (k', omega arith, e')
  ];
  to = λ k p. elim (Bool-cases (k == n)) [
    | inl e ↦ (k, p, sym (m.above k (ground arith)))
    | inr e ↦ let (k', q, e') = m.to k (ground arith) in (k', omega arith, e')
  ];
  above = λ k p. m.above k (omega arith);
  outside = λ p a. m.outside p (λ k q. a k (omega arith));
}

DownInv-UpInv :
    (s : Side) (n : ℕ) (h : Heap) (i : ℕ) → DownInv s n h i → IsSettled s n h i → UpInv s n h i
DownInv-UpInv s n h i inv settled = record {
  edges = λ c p q r. ground (arith, inv.edges c, settled c);
  bridged = inv.bridged;
}

-- `if !down(h, i, n) { up(h, i) }`
abbrev pub sift : Side → Heap → ℕ → ℕ → Heap
sift s h i n = if (down s h i n).1 then (down s h i n).0 else up s (down s h i n).0 i

pub sift-IsHeap :
    (s : Side) (n : ℕ) (h : Heap) (i : ℕ)
    → n ≤ size h
    → i < n
    → DownInv s n h i
    → Moves n h (sift s h i n) × IsHeap s n (sift s h i n)
sift-IsHeap s n h i fits below inv =
    let (moves, outcome) = down-outcome s n h i fits inv in
    elim outcome [
      | inl (stay, same, settled) ↦
          let (heap, raised) = up-IsHeap s n h i fits below (DownInv-UpInv s n h i inv settled) in
          rw (stay, same) (raised, heap)
      | inr (moved, heap) ↦ rw moved (moves, heap)
    ]

-- heap.Fix restores the order after a change of the entry at `i`.
pub fix-IsHeap :
    (s : Side) (h : Heap) (i : ℕ)
    → i < size h
    → DownInv s (size h) h i
    → Moves (size h) h (fix s h i) × IsHeap s (size h) (fix s h i)
unfolding fix
fix-IsHeap s h i below inv = sift-IsHeap s (size h) h i (omega arith) below inv
