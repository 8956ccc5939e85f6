-- ===== src/Stub/Heap/Size.antt =====
-- How the heap operations change the length of the slice.
use iicpc_sh.Prelude.{
  ℕ, zero, suc, ◌+◌, ◌-◌, ◌/◌, ◌≡◌, refl, arith, length, length-set, length-take, length-append,
  ◌∙◌,
}
use iicpc_sh.Stub.Types.{Side}
use iicpc_sh.Stub.Heap.{Heap, swap, up_loop, up, child, down_loop, down, push, drop_last, pop, fix}

abbrev pub size : Heap → ℕ
size h = length h.arr

pub size-swap : (h : Heap) (i j : ℕ) → size (swap h i j) ≡ size h
unfolding swap
size-swap h i j = length-set _ j _ ∙ length-set h.arr i _

size-up_loop : (s : Side) (fuel : ℕ) (h : Heap) (j : ℕ) → size (up_loop s fuel h j) ≡ size h
unfolding up_loop
size-up_loop s zero h j = refl
size-up_loop s (suc fuel) h j =
    ground (
      arith,
      size-up_loop s fuel (swap h ((j - 1) / 2) j) ((j - 1) / 2),
      size-swap h ((j - 1) / 2) j,
    )

size-down_loop :
    (s : Side) (fuel : ℕ) (h : Heap) (i n : ℕ) → size (down_loop s fuel h i n).0 ≡ size h
unfolding down_loop
size-down_loop s zero h i n = refl
size-down_loop s (suc fuel) h i n = ground (
  arith,
  size-down_loop s fuel (swap h i (child s h i n)) (child s h i n) n,
  size-swap h i (child s h i n),
)

size-up : (s : Side) (h : Heap) (j : ℕ) → size (up s h j) ≡ size h
unfolding up
size-up s h j = size-up_loop s (suc j) h j

size-down : (s : Side) (h : Heap) (i n : ℕ) → size (down s h i n).0 ≡ size h
unfolding down
size-down s h i n = size-down_loop s (suc n) h i n

pub size-drop_last : (h : Heap) → size (drop_last h) ≡ size h - 1
unfolding drop_last
size-drop_last h = omega (arith, length-take (length h.arr - 1) h.arr)

size-push : (s : Side) (h : Heap) (p : ℕ) → size (push s h p) ≡ size h + 1
unfolding push
size-push s h p = omega (arith, size-up s _ (length h.arr), length-append {0} h.arr)

pub size-pop : (s : Side) (h : Heap) → size (pop s h) ≡ size h - 1
unfolding pop
size-pop s h = omega (arith, size-drop_last, size-down, size-swap)

pub size-fix : (s : Side) (h : Heap) (i : ℕ) → size (fix s h i) ≡ size h
unfolding fix
size-fix s h i =
    ground (arith, size-down s h i (length h.arr), size-up s (down s h i (length h.arr)).0 i)
