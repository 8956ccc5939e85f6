-- ===== src/Stub/Book/Shrinks.antt =====
-- Matching and removal only take orders out of the book: those that rest afterwards rested before,
-- and differ in nothing but their places and what is left of them.
use iicpc_sh.Prelude.{
  ℕ, zero, suc, ◌-◌, ◌≡◌, ◌<◌, refl, arith, ◌∙◌, inl, inr, none, ap, List, String, Bool-cases, ◌==◌,
}
use iicpc_sh.Prelude.Assoc.{delete}
use iicpc_sh.Stub.Types.{Side, buy, sell, Order}
use iicpc_sh.Stub.Clock.{Clock}
use iicpc_sh.Stub.Heap.{Heap, ptr_at}
use iicpc_sh.Stub.Heap.Size.{size}
use iicpc_sh.Stub.Heap.Laws.{pop-Removed, fix-root}
use iicpc_sh.Stub.Book.{
  Orderbook, Matching, opposite, heap_of, set_heap, best, can_fill, fill_best, match_loop, rounds,
  match, fill_qty, lower_best, drop_best, fix_best, book_after,
}
use iicpc_sh.Stub.Book.Loop.{depth, depth-lower_best, start}
use iicpc_sh.Stub.Book.Sound.{From, IsSound, From-IsSound}
use iicpc_sh.Stub.Book.Steps.{lower_best-IsSound, book_after-IsSound}

-- An order but for its place and what is left of it.
abbrev pub fixed : Order → Order
fixed o = record o { remaining = 0; index = none }

abbrev pub resting_at : Side → Orderbook → ℕ → ℕ
resting_at s ob k = ptr_at (heap_of s ob) k

pub record Shrinks (ob ob' : Orderbook) : Type 0 where
  pub kept : (p : ℕ) → fixed (ob'.mem p) ≡ fixed (ob.mem p)
  pub from :
      (s : Side) (k : ℕ)
      → k < depth s ob'
      → (k' : ℕ) × (k' < depth s ob) × (resting_at s ob' k ≡ resting_at s ob k')

Shrinks-refl : (ob : Orderbook) → Shrinks ob ob
Shrinks-refl ob = record { kept = λ p. refl; from = λ s k p. (k, p, refl) }

Shrinks-trans : (a b c : Orderbook) → Shrinks a b → Shrinks b c → Shrinks a c
Shrinks-trans a b c f g = record {
  kept = λ p. g.kept p ∙ f.kept p;
  from = λ s k p.
      let (k', q, e) = g.from s k p in let (k'', r, e') = f.from s k' q in (k'', r, e ∙ e');
}

lower_best-from :
    (m : Matching) (s : Side) (k : ℕ)
    → k < depth s (lower_best m)
    → (k' : ℕ) × (k' < depth s m.book) × (resting_at s (lower_best m) k ≡ resting_at s m.book k')
unfolding lower_best
lower_best-from m buy k p = (k, p, refl)
lower_best-from m sell k p = (k, p, refl)

lower_best-Shrinks : (m : Matching) → Shrinks m.book (lower_best m)
unfolding lower_best
lower_best-Shrinks m = record { kept = λ p. ground arith; from = lower_best-from m }

fixed_of_erase :
    (o o' : Order) → record o { index = none } ≡ record o' { index = none } → fixed o ≡ fixed o'
fixed_of_erase o o' e = ap (λ (x : Order). record x { remaining = 0 }) e

pub set_heap-from :
    (s t : Side) (ob : Orderbook) (orders : List (String × ℕ)) (h : Heap)
    → ((k : ℕ) → k < size h → (k' : ℕ) × (k' < depth s ob) × (ptr_at h k ≡ resting_at s ob k'))
    → (k : ℕ) → k < depth t (set_heap s h (record ob { orders = orders }))
    → (k' : ℕ) × (k' < depth t ob)
      × (resting_at t (set_heap s h (record ob { orders = orders })) k ≡ resting_at t ob k')
set_heap-from buy buy ob orders h from k p = from k p
set_heap-from buy sell ob orders h from k p = (k, p, refl)
set_heap-from sell buy ob orders h from k p = (k, p, refl)
set_heap-from sell sell ob orders h from k p = from k p

pub set_heap-mem : (s : Side) (ob : Orderbook) (h : Heap) → (set_heap s h ob).mem ≡ h.mem
set_heap-mem buy ob h = refl
set_heap-mem sell ob h = refl

pub set_heap-orders : (s : Side) (h : Heap) (ob : Orderbook) → (set_heap s h ob).orders ≡ ob.orders
set_heap-orders buy h ob = refl
set_heap-orders sell h ob = refl

-- A heap without some of its entries, put back into the book.
set_heap-Shrinks :
    (s : Side) (ob : Orderbook) (orders : List (String × ℕ)) (h : Heap)
    → ((p : ℕ) → record (h.mem p) { index = none } ≡ record (ob.mem p) { index = none })
    → ((k : ℕ) → k < size h → (k' : ℕ) × (k' < depth s ob) × (ptr_at h k ≡ resting_at s ob k'))
    → Shrinks ob (set_heap s h (record ob { orders = orders }))
set_heap-Shrinks s ob orders h kept from = record {
  kept = λ p.
      rw (set_heap-mem s (record ob { orders = orders }) h)
        (fixed_of_erase (h.mem p) (ob.mem p) (kept p));
  from = λ t. set_heap-from s t ob orders h from;
}

drop_best-Shrinks :
    (s : Side) (id : String) (ob : Orderbook)
    → From s ob
    → 0 < depth s ob
    → Shrinks ob (drop_best s id ob)
unfolding drop_best
drop_best-Shrinks s id ob sound left =
    let gone = pop-Removed s (heap_of s ob) sound.ordered left in
    set_heap-Shrinks s ob (delete id ob.orders) _ gone.kept
      (λ k p. let (k', q, e, ne) = gone.from k p in (k', q, e))

fix_best-Shrinks :
    (s : Side) (ob : Orderbook) → From s ob → 0 < depth s ob → Shrinks ob (fix_best s ob)
unfolding fix_best
fix_best-Shrinks s ob sound left =
    let (moves, ord) = fix-root s (heap_of s ob) sound.ordered left in
    set_heap-Shrinks s ob ob.orders _ moves.kept (λ k p. moves.from k (omega (arith, moves.size)))

pub book_after-Shrinks :
    (m : Matching)
    → IsSound m.book
    → 0 < depth (opposite m.order.side) m.book
    → Shrinks m.book (book_after m)
unfolding book_after
book_after-Shrinks m sound left =
    let s = opposite m.order.side in
    let lowered = From-IsSound s _ (lower_best-IsSound m sound) in
    let left' : 0 < depth s (lower_best m) = omega (arith, depth-lower_best s m) in
    Shrinks-trans m.book (lower_best m) _ (lower_best-Shrinks m)
      (elim (Bool-cases ((best m).remaining - fill_qty m == 0)) [
        | inl filled ↦
            rw filled (drop_best-Shrinks s (best m).order_id (lower_best m) lowered left')
        | inr partly ↦ rw partly (fix_best-Shrinks s (lower_best m) lowered left')
      ])

match_loop-Shrinks :
    (fuel : ℕ) (m : Matching) → IsSound m.book → Shrinks m.book (match_loop fuel m).book
unfolding match_loop fill_best
match_loop-Shrinks zero m sound = Shrinks-refl m.book
match_loop-Shrinks (suc fuel) m sound = elim (Bool-cases (can_fill m)) [
  | inl go ↦
      let left : 0 < depth (opposite m.order.side) m.book = unfold can_fill in ground arith in
      rw go (
        Shrinks-trans m.book (book_after m) _ (book_after-Shrinks m sound left)
          (match_loop-Shrinks fuel (fill_best m) (book_after-IsSound m sound left)))
  | inr stop ↦ rw stop (Shrinks-refl m.book)
]

pub match-Shrinks :
    (ob : Orderbook) (order : Order) (clock : Clock)
    → IsSound ob
    → Shrinks ob (match ob order clock).book
unfolding match
match-Shrinks ob order clock sound =
    let m = start ob order clock in match_loop-Shrinks (suc (rounds m)) m sound
