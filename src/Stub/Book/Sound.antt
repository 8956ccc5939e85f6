-- ===== src/Stub/Book/Sound.antt =====
-- The invariant of the order book: heaps, orders and map agree.
use iicpc_sh.Prelude.{ℕ, ◌≡◌, ◌≢◌, ◌<◌, refl, arith, ◌∙◌, inl, inr, ◌⊎◌, some, List, String}
use iicpc_sh.Prelude.Assoc.{lookup}
use iicpc_sh.Stub.Types.{Side, buy, sell, Order, limit}
use iicpc_sh.Stub.Heap.{Heap, ptr_at, less}
use iicpc_sh.Stub.Heap.Size.{size}
use iicpc_sh.Stub.Heap.Priority.{erase}
use iicpc_sh.Stub.Heap.Moves.{key}
use iicpc_sh.Stub.Heap.Up.{parent}
use iicpc_sh.Stub.Heap.Remove.{IsOrdered}
use iicpc_sh.Stub.Book.{Orderbook, opposite, side_of}

-- The address stands in the slice of the heap.
abbrev pub In : Heap → ℕ → Type 0
In h p = (k : ℕ) × (k < size h) × (ptr_at h k ≡ p)

-- The other heap of the book: it shares the memory.
abbrev pub beside : Heap → List ℕ → Heap
beside h others = record { mem = h.mem; arr = others }

-- An order that rests on side `s`: a limit order that the map leads to.
pub record IsResting (s : Side) (next : ℕ) (orders : List (String × ℕ)) (p : ℕ) (o : Order)
    : Type 0 where
  pub side : o.side ≡ s
  pub type : o.order_type ≡ limit
  pub in_use : p < next
  pub listed : lookup o.order_id orders ≡ some p

pub record Sides (s : Side) (h : Heap) (others : List ℕ) (next : ℕ) (orders : List (String × ℕ))
    : Type 0 where
  pub ordered : IsOrdered s h
  pub others_ordered : IsOrdered (opposite s) (beside h others)
  pub resting : (k : ℕ) → k < size h → IsResting s next orders (ptr_at h k) (h.mem (ptr_at h k))
  pub others_resting :
      (k : ℕ)
      → k < size (beside h others)
      → IsResting
          (opposite s)
          next
          orders
          (ptr_at (beside h others) k)
          (h.mem (ptr_at (beside h others) k))
  pub map :
      (id : String) (p : ℕ)
      → lookup id orders ≡ some p
      → ((h.mem p).order_id ≡ id) × (In h p ⊎ In (beside h others) p)

-- The book seen from one side.
abbrev pub From : Side → Orderbook → Type 0
From s ob =
    Sides s (record { mem = ob.mem; arr = side_of s ob }) (side_of (opposite s) ob) ob.next
      ob.orders

-- Each heap is in order and each order knows its place in it; every resting order is a limit order of
-- its side that the map leads to; and the map leads only to resting orders, by their ids.
abbrev pub IsSound : Orderbook → Type 0
IsSound ob = From buy ob

turn : (a b : Type 0) → a ⊎ b → b ⊎ a
turn a b (inl x) = inr x
turn a b (inr x) = inl x

pub From-IsSound : (s : Side) (ob : Orderbook) → IsSound ob → From s ob
From-IsSound buy ob sound = sound
From-IsSound sell ob sound = record {
  ordered = sound.others_ordered;
  others_ordered = sound.ordered;
  resting = sound.others_resting;
  others_resting = sound.resting;
  map = λ id p e. let (same, at) = sound.map id p e in (same, turn _ _ at);
}

pub IsSound-From : (s : Side) (ob : Orderbook) → From s ob → IsSound ob
IsSound-From buy ob sound = sound
IsSound-From sell ob sound = record {
  ordered = sound.others_ordered;
  others_ordered = sound.ordered;
  resting = sound.others_resting;
  others_resting = sound.resting;
  map = λ id p e. let (same, at) = sound.map id p e in (same, turn _ _ at);
}

-- Two orders that the heaps do not tell apart.
abbrev pub SameRank : Order → Order → Type 0
SameRank a b = (a.price ≡ b.price) × (a.entered_at ≡ b.entered_at) × (a.index ≡ b.index)

less-SameRank :
    (s : Side) (a a' b b' : Order) → SameRank a a' → SameRank b b' → less s a b ≡ less s a' b'
unfolding less
less-SameRank buy a a' b b' h k = ground arith
less-SameRank sell a a' b b' h k = ground arith

SameRank-erase : (a b : Order) → SameRank a b → SameRank (erase a) (erase b)
SameRank-erase a b (p, t, i) = (p, t, refl)

pub IsOrdered-SameRank :
    (s : Side) (h : Heap) (mem : ℕ → Order)
    → ((k : ℕ) → k < size h → SameRank (mem (ptr_at h k)) (h.mem (ptr_at h k)))
    → IsOrdered s h
    → IsOrdered s (record { mem = mem; arr = h.arr })
IsOrdered-SameRank s h mem rank ord = record {
  heap = λ c p q.
      less-SameRank s (erase (mem (ptr_at h c))) (key h c) (erase (mem (ptr_at h (parent c))))
        (key h (parent c)) (SameRank-erase (mem (ptr_at h c)) (h.mem (ptr_at h c)) (rank c q))
        (SameRank-erase (mem (ptr_at h (parent c))) (h.mem (ptr_at h (parent c)))
          (rank (parent c) (omega arith)))
      ∙ ord.heap c p q;
  indexed = λ k p. (rank k p).2 ∙ ord.indexed k p;
}

pub opposite_ne : (s : Side) → opposite s ≢ s
opposite_ne buy = λ e. cc
opposite_ne sell = λ e. cc
