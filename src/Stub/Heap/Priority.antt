-- ===== src/Stub/Heap/Priority.antt =====
-- The order of the heaps: price first, then time of entry.
use iicpc_sh.Prelude.{◌≡◌, true, false, none, arith, refl}
use iicpc_sh.Stub.Types.{Order, Side, buy, sell}
use iicpc_sh.Stub.Heap.{less}

-- An order without its place in a heap.
abbrev pub erase : Order → Order
erase o = record o { index = none }

-- `b` does not come before `a` in the queue of this side.
abbrev pub NotAfter : Side → Order → Order → Type 0
NotAfter s a b = less s b a ≡ false

pub less-erase : (s : Side) (a b : Order) → less s (erase a) (erase b) ≡ less s a b
unfolding less
less-erase buy a b = refl
less-erase sell a b = refl

pub NotAfter-refl : (s : Side) (a : Order) → NotAfter s a a
unfolding less
NotAfter-refl buy a = ground arith
NotAfter-refl sell a = ground arith

pub NotAfter-trans : (s : Side) (a b c : Order) → NotAfter s a b → NotAfter s b c → NotAfter s a c
unfolding less
NotAfter-trans buy a b c h k = ground arith
NotAfter-trans sell a b c h k = ground arith

pub less-NotAfter : (s : Side) (a b : Order) → less s a b ≡ true → NotAfter s a b
unfolding less
less-NotAfter buy a b h = ground arith
less-NotAfter sell a b h = ground arith
