-- ===== src/Stub/Heap.antt =====
-- container/heap over the pointer slices bidHeap and askHeap of services/stub/main.go.
--
-- `*Order` is a number, the address of an order in `mem`. A heap is the slice of the addresses,
-- and Swap, Push and Pop write the `index` of the orders that they move. `less` is the Less of
-- the two heaps. Indices are in range wherever these functions are called, so a read takes a
-- default in place of a panic. Fuel: `up` divides the index, `down` raises it, so the index and
-- the length are enough.
pub mod Size
pub mod Priority
pub mod Moves
pub mod Up
pub mod Down
pub mod Remove
pub mod Laws
use iicpc_sh.Prelude.{
  ℕ, zero, suc, ◌+◌, ◌-◌, ◌*◌, ◌/◌, Bool, ◌&&◌, List, [], ◌∷◌, ◌++◌, Option, none, some, ltb, leb,
  ◌==◌, if◌then◌else◌, length, get_or, set, take, ltb_ℤ, eqb_ℤ,
}
use iicpc_sh.Stub.Types.{Order, Side, buy, sell}

pub record Heap : Type 0 where
  pub mem : ℕ → Order
  pub arr : List ℕ

abbrev pub update : (ℕ → Order) → ℕ → Order → ℕ → Order
update m p o q = if p == q then o else m q

-- (*bidHeap).Less and (*askHeap).Less, on the two orders.
unfoldable pub less : Side → Order → Order → Bool
less buy a b =
    if eqb_ℤ a.price b.price then ltb_ℤ a.entered_at b.entered_at else ltb_ℤ b.price a.price
less sell a b =
    if eqb_ℤ a.price b.price then ltb_ℤ a.entered_at b.entered_at else ltb_ℤ a.price b.price

-- `h[i]`
abbrev pub ptr_at : Heap → ℕ → ℕ
ptr_at h i = get_or h.arr i 0

abbrev pub less_at : Side → Heap → ℕ → ℕ → Bool
less_at s h i j = less s (h.mem (ptr_at h i)) (h.mem (ptr_at h j))

abbrev pub set_index : (ℕ → Order) → ℕ → Option ℕ → ℕ → Order
set_index m p i = update m p (record (m p) { index = i })

unfoldable pub swap : Heap → ℕ → ℕ → Heap
swap h i j =
    let a = ptr_at h i in
    let b = ptr_at h j in
    record {
      mem = set_index (set_index h.mem b (some i)) a (some j);
      arr = set (set h.arr i b) j a;
    }

-- heap.up
unfoldable pub up_loop : Side → ℕ → Heap → ℕ → Heap
unfolding less swap
up_loop s zero h j = h
up_loop s (suc fuel) h j =
    let i = (j - 1) / 2 in
    let rest = up_loop s fuel (swap h i j) i in
    if i == j then h else if less_at s h j i then rest else h

unfoldable pub up : Side → Heap → ℕ → Heap
unfolding up_loop
up s h j = up_loop s (suc j) h j

-- The smaller of the two children of `i`; the left one exists.
unfoldable pub child : Side → Heap → ℕ → ℕ → ℕ
unfolding less
child s h i n =
    let j1 = 2 * i + 1 in let j2 = j1 + 1 in if ltb j2 n && less_at s h j2 j1 then j2 else j1

-- heap.down: the heap, and the index where the moved order stops.
unfoldable pub down_loop : Side → ℕ → Heap → ℕ → ℕ → Heap × ℕ
unfolding less swap child
down_loop s zero h i n = (h, i)
down_loop s (suc fuel) h i n =
    let j = child s h i n in
    let rest = down_loop s fuel (swap h i j) j n in
    if leb n (2 * i + 1) then (h, i) else if less_at s h j i then rest else (h, i)

unfoldable pub down : Side → Heap → ℕ → ℕ → Heap × Bool
unfolding down_loop
down s h i0 n = let (h', i) = down_loop s (suc n) h i0 n in (h', ltb i0 i)

-- (*bidHeap).Push and heap.Push
unfoldable pub push : Side → Heap → ℕ → Heap
unfolding up
push s h p =
    let n = length h.arr in
    up s (record { mem = set_index h.mem p (some n); arr = h.arr ++ (p ∷ []) }) n

-- (*bidHeap).Pop: drops the last entry, which leaves the heap.
unfoldable pub drop_last : Heap → Heap
drop_last h =
    let n = length h.arr - 1 in
    record { mem = set_index h.mem (ptr_at h n) none; arr = take n h.arr }

-- heap.Pop
unfoldable pub pop : Side → Heap → Heap
unfolding swap down drop_last
pop s h = let n = length h.arr - 1 in drop_last (down s (swap h 0 n) 0 n).0

-- heap.Fix
unfoldable pub fix : Side → Heap → ℕ → Heap
unfolding down up
fix s h i = let (h', moved) = down s h i (length h.arr) in if moved then h' else up s h' i

-- heap.Remove
unfoldable pub remove : Side → Heap → ℕ → Heap
unfolding swap down up drop_last
remove s h i =
    let n = length h.arr - 1 in
    let (h', moved) = down s (swap h i n) i n in
    drop_last (if n == i then h else if moved then h' else up s h' i)
