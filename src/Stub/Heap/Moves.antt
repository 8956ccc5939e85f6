-- ===== src/Stub/Heap/Moves.antt =====
-- Rearrangements of a heap: what swaps of its entries below `n` keep.
use iicpc_sh.Prelude.{
  zero, suc, ◌-◌, ◌/◌, inl, inr, Bool-cases, length, ℕ, ◌≡◌, ◌≢◌, ◌≤◌, ◌<◌, refl, arith, some, ◌==◌,
  if◌then◌else◌, get_or-set, length-set, sym, ◌∙◌, ap, set,
}
use iicpc_sh.Stub.Types.{Order, Side}
use iicpc_sh.Stub.Heap.{Heap, ptr_at, swap, less_at, up_loop, up, push}
use iicpc_sh.Stub.Heap.Size.{size, size-swap}
use iicpc_sh.Stub.Heap.Priority.{erase}

-- Each order of the heap knows its place. So the addresses are distinct.
abbrev pub IsIndexed : Heap → Type 0
IsIndexed h = (k : ℕ) → k < size h → (h.mem (ptr_at h k)).index ≡ some k

-- The order at a place, without the place.
abbrev pub key : Heap → ℕ → Order
key h k = erase (h.mem (ptr_at h k))

abbrev pub transpose : ℕ → ℕ → ℕ → ℕ
transpose i j k = if j == k then i else if i == k then j else k

pub ptr_at-swap :
    (h : Heap) (i j k : ℕ)
    → i < size h
    → j < size h
    → ptr_at (swap h i j) k ≡ ptr_at h (transpose i j k)
unfolding swap
ptr_at-swap h i j k p q = ground (
  arith,
  get_or-set (set h.arr i (ptr_at h j)) j k (ptr_at h i) 0,
  get_or-set h.arr i k (ptr_at h j) 0,
  length-set h.arr i (ptr_at h j),
)

erase-swap : (h : Heap) (i j p : ℕ) → erase ((swap h i j).mem p) ≡ erase (h.mem p)
unfolding swap
erase-swap h i j p = ground arith

erase-up_loop :
    (s : Side) (fuel : ℕ) (h : Heap) (j p : ℕ)
    → erase ((up_loop s fuel h j).mem p) ≡ erase (h.mem p)
unfolding up_loop
erase-up_loop s zero h j p = refl
erase-up_loop s (suc fuel) h j p = elim (Bool-cases ((j - 1) / 2 == j)) [
  | inl root ↦ rw root refl
  | inr below ↦ rw below (elim (Bool-cases (less_at s h j ((j - 1) / 2))) [
    | inl goes ↦ rw goes (
        erase-up_loop s fuel (swap h ((j - 1) / 2) j) ((j - 1) / 2) p
        ∙ erase-swap h ((j - 1) / 2) j p)
    | inr stays ↦ rw stays refl
  ])
]

-- A push changes nothing but indices.
pub erase-push : (s : Side) (h : Heap) (q p : ℕ) → erase ((push s h q).mem p) ≡ erase (h.mem p)
unfolding push up
erase-push s h q p = erase-up_loop s (suc (length h.arr)) _ (length h.arr) p ∙ ground arith

index-swap : (h : Heap) (i j : ℕ) → i < size h → j < size h → IsIndexed h → IsIndexed (swap h i j)
unfolding swap
index-swap h i j p q inv k r = ground (
  arith,
  get_or-set (set h.arr i (ptr_at h j)) j k (ptr_at h i) 0,
  get_or-set h.arr i k (ptr_at h j) 0,
  length-set h.arr i (ptr_at h j),
  length-set (set h.arr i (ptr_at h j)) j (ptr_at h i),
  inv i,
  inv j,
  inv k,
)

-- `h'` holds the orders of `h` in another arrangement; the places from `n` on are as they were,
-- and so are the orders that are not in the heap.
pub record Moves (n : ℕ) (h h' : Heap) : Type 0 where
  pub size : size h' ≡ size h
  pub kept : (p : ℕ) → erase (h'.mem p) ≡ erase (h.mem p)
  pub indexed : IsIndexed h → IsIndexed h'
  pub from : (k : ℕ) → k < n → (k' : ℕ) × (k' < n) × (ptr_at h' k ≡ ptr_at h k')
  pub to : (k : ℕ) → k < n → (k' : ℕ) × (k' < n) × (ptr_at h k ≡ ptr_at h' k')
  pub above : (k : ℕ) → n ≤ k → ptr_at h' k ≡ ptr_at h k
  pub outside : (p : ℕ) → ((k : ℕ) → k < n → ptr_at h k ≢ p) → h'.mem p ≡ h.mem p

pub Moves-refl : (n : ℕ) (h : Heap) → Moves n h h
Moves-refl n h = record {
  size = refl;
  kept = λ p. refl;
  indexed = λ inv. inv;
  from = λ k r. (k, r, refl);
  to = λ k r. (k, r, refl);
  above = λ k r. refl;
  outside = λ p a. refl;
}

pub Moves-trans : (n : ℕ) (h h' h'' : Heap) → Moves n h h' → Moves n h' h'' → Moves n h h''
Moves-trans n h h' h'' m m' = record {
  size = m'.size ∙ m.size;
  kept = λ p. m'.kept p ∙ m.kept p;
  indexed = λ inv. m'.indexed (m.indexed inv);
  from = λ k r.
      let (k', r', e) = m'.from k r in let (k'', r'', e') = m.from k' r' in (k'', r'', e ∙ e');
  to = λ k r. let (k', r', e) = m.to k r in let (k'', r'', e') = m'.to k' r' in (k'', r'', e ∙ e');
  above = λ k r. m'.above k r ∙ m.above k r;
  outside = λ p a.
      m'.outside p (λ k r e. let (k', r', e') = m.from k r in a k' r' (sym e' ∙ e)) ∙ m.outside p a;
}

module _ (n : ℕ) (h : Heap) (i j : ℕ) (p : i < n) (q : j < n) (r : n ≤ size h) where
  transpose_lt : (k : ℕ) → k < n → transpose i j k < n
  transpose_lt k s = ground arith

  at_swap : (k : ℕ) → ptr_at (swap h i j) k ≡ ptr_at h (transpose i j k)
  at_swap k = ptr_at-swap h i j k (omega arith) (omega arith)

  at_transpose : (k : ℕ) → ptr_at h k ≡ ptr_at (swap h i j) (transpose i j k)
  at_transpose k = ground (arith, at_swap (transpose i j k))

  mem_outside : (x : ℕ) → ((k : ℕ) → k < n → ptr_at h k ≢ x) → (swap h i j).mem x ≡ h.mem x
  unfolding swap
  mem_outside x a = ground (arith, a i, a j)

  pub Moves-swap : Moves n h (swap h i j)
  Moves-swap = record {
    size = size-swap h i j;
    kept = erase-swap h i j;
    indexed = index-swap h i j (omega arith) (omega arith);
    from = λ k s. (transpose i j k, transpose_lt k s, at_swap k);
    to = λ k s. (transpose i j k, transpose_lt k s, at_transpose k);
    above = λ k s. ground (arith, at_swap k);
    outside = mem_outside;
  }

  -- The keys after a swap.
  pub key-swap : (k : ℕ) → key (swap h i j) k ≡ key h (transpose i j k)
  key-swap k = ap (λ x. erase ((swap h i j).mem x)) (at_swap k) ∙ erase-swap h i j _
