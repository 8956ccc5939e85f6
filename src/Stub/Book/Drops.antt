-- ===== src/Stub/Book/Drops.antt =====
-- `remove` and cancelSession take orders out of the book and change no other.
use iicpc_sh.Prelude.{
  ℕ, ◌≡◌, ◌<◌, refl, sym, ◌∙◌, inl, inr, some, none, ap, List, [], ◌∷◌, String, Option, Bool-cases,
  Option-cases, subst, length, ltb, ltb→lt,
}
use iicpc_sh.Prelude.Assoc.{lookup, delete}
use iicpc_sh.Stub.Types.{Side, buy, sell, Order}
use iicpc_sh.Stub.Heap.{Heap, ptr_at}
use iicpc_sh.Stub.Heap.Size.{size}
use iicpc_sh.Stub.Heap.Priority.{erase}
use iicpc_sh.Stub.Heap.Remove.{IsOrdered}
use iicpc_sh.Stub.Heap.Laws.{remove-Removed}
use iicpc_sh.Stub.Book.{
  Orderbook, side_of, heap_of, set_heap, remove, remove_at, remove_all, cancel_session,
  session_orders,
}
use iicpc_sh.Stub.Book.Loop.{depth}
use iicpc_sh.Stub.Book.Sound.{IsSound, From-IsSound}
use iicpc_sh.Stub.Book.Steps.{remove-IsSound}
use iicpc_sh.Stub.Book.Shrinks.{Shrinks, resting_at, set_heap-mem, set_heap-from}

-- Orders are taken out, and the others keep all but their places.
pub record Drops (ob ob' : Orderbook) : Type 0 where
  pub kept : (p : ℕ) → erase (ob'.mem p) ≡ erase (ob.mem p)
  pub from :
      (s : Side) (k : ℕ)
      → k < depth s ob'
      → (k' : ℕ) × (k' < depth s ob) × (resting_at s ob' k ≡ resting_at s ob k')

Drops-refl : (ob : Orderbook) → Drops ob ob
Drops-refl ob = record { kept = λ p. refl; from = λ s k p. (k, p, refl) }

Drops-trans : (a b c : Orderbook) → Drops a b → Drops b c → Drops a c
Drops-trans a b c f g = record {
  kept = λ p. g.kept p ∙ f.kept p;
  from = λ s k p.
      let (k', q, e) = g.from s k p in let (k'', r, e') = f.from s k' q in (k'', r, e ∙ e');
}

pub Drops-Shrinks : (ob ob' : Orderbook) → Drops ob ob' → Shrinks ob ob'
Drops-Shrinks ob ob' d = record {
  kept = λ p. ap (λ (o : Order). record o { remaining = 0 }) (d.kept p);
  from = d.from;
}

-- The map does not matter to the heaps.
heap_of-orders :
    (s : Side) (ob : Orderbook) (orders : List (String × ℕ))
    → heap_of s (record ob { orders = orders }) ≡ heap_of s ob
heap_of-orders buy ob orders = refl
heap_of-orders sell ob orders = refl

orders-Drops :
    (ob : Orderbook) (orders : List (String × ℕ)) → Drops ob (record ob { orders = orders })
orders-Drops ob orders = record {
  kept = λ p. refl;
  from = λ s k p. (
    k,
    subst (λ h. k < size h) (heap_of-orders s ob orders) p,
    ap (λ h. ptr_at h k) (heap_of-orders s ob orders),
  );
}

-- A heap without some of its entries, put back into the book.
set_heap-Drops :
    (s : Side) (ob : Orderbook) (h : Heap)
    → ((p : ℕ) → erase (h.mem p) ≡ erase (ob.mem p))
    → ((k : ℕ) → k < size h → (k' : ℕ) × (k' < depth s ob) × (ptr_at h k ≡ resting_at s ob k'))
    → Drops ob (set_heap s h ob)
set_heap-Drops s ob h kept from = record {
  kept = λ p. rw (set_heap-mem s ob h) (kept p);
  from = λ t. set_heap-from s t ob ob.orders h from;
}

remove_at-Drops :
    (s : Side) (i : Option ℕ) (ob : Orderbook)
    → IsOrdered s (heap_of s ob)
    → Drops ob (remove_at s i ob)
unfolding remove_at
remove_at-Drops s none ob ord = Drops-refl ob
remove_at-Drops s (some i) ob ord = elim (Bool-cases (ltb i (length (side_of s ob)))) [
  | inl inside ↦
      let gone = remove-Removed s (heap_of s ob) i ord (ltb→lt _ _ inside) in
      rw inside
        (set_heap-Drops s ob _ gone.kept (λ k p. let (k', q, e, ne) = gone.from k p in (k', q, e)))
  | inr outside ↦ rw outside (Drops-refl ob)
]

remove_listed :
    (ob : Orderbook) (id : String) (p : ℕ)
    → IsSound ob
    → Drops ob
        (remove_at (ob.mem p).side (ob.mem p).index (record ob { orders = delete id ob.orders }))
remove_listed ob id p sound =
    let s = (ob.mem p).side in
    Drops-trans ob (record ob { orders = delete id ob.orders }) _
      (orders-Drops ob (delete id ob.orders))
      (remove_at-Drops s (ob.mem p).index (record ob { orders = delete id ob.orders })
        (subst (IsOrdered s) (sym (heap_of-orders s ob (delete id ob.orders)))
          (From-IsSound s ob sound).ordered))

pub remove-Drops : (ob : Orderbook) (id : String) → IsSound ob → Drops ob (remove ob id)
unfolding remove
remove-Drops ob id sound = elim (Option-cases (lookup id ob.orders)) [
  | inl e ↦ rw (e, remove) (Drops-refl ob)
  | inr (p, e) ↦ rw (e, remove) (remove_listed ob id p sound)
]

remove_all-Drops : (ob : Orderbook) (ids : List String) → IsSound ob → Drops ob (remove_all ob ids)
unfolding remove_all
remove_all-Drops ob [] sound = Drops-refl ob
remove_all-Drops ob (id ∷ ids) sound =
    Drops-trans ob (remove ob id) _ (remove-Drops ob id sound)
      (remove_all-Drops (remove ob id) ids (remove-IsSound ob id sound))

pub cancel_session-Drops :
    (ob : Orderbook) (session_id : String) → IsSound ob → Drops ob (cancel_session ob session_id)
unfolding cancel_session
cancel_session-Drops ob session_id sound =
    remove_all-Drops ob (session_orders ob.mem session_id ob.orders) sound
