-- ===== src/Stub/Exchange/View.antt =====
-- The view of a book against its heaps, and what the steps of a match do to it.
use iicpc_sh.Prelude.{
  ℕ, ◌≡◌, ◌<◌, refl, inl, inr, some, none, ap, String, Bool-cases, Option-cases, subst, Option,
  str_eq, if◌then◌else◌, fun_ext,
}
use iicpc_sh.Prelude.Assoc.{lookup}
use iicpc_sh.Stub.Types.{Side, buy, sell, Order}
use iicpc_sh.Stub.Heap.Priority.{erase}
use iicpc_sh.Stub.Heap.Moves.{key}
use iicpc_sh.Stub.Book.{Orderbook, heap_of}
use iicpc_sh.Stub.Book.Loop.{depth}
use iicpc_sh.Stub.Book.Sound.{IsSound, From-IsSound}
use iicpc_sh.Stub.Book.Shrinks.{resting_at}
use iicpc_sh.Stub.Exchange.{view, take_out, order_at}

pub view-some :
    (ob : Orderbook) (id : String) (p : ℕ)
    → lookup id ob.orders ≡ some p
    → view ob id ≡ some (erase (ob.mem p))
unfolding view
view-some ob id p e = rw (e, view) refl

pub view-none : (ob : Orderbook) (id : String) → lookup id ob.orders ≡ none → view ob id ≡ none
unfolding view
view-none ob id e = rw (e, view) refl

-- Each place of a heap is seen under the id of the order there.
pub view-resting :
    (ob : Orderbook) (s : Side) (k : ℕ)
    → IsSound ob
    → k < depth s ob
    → view ob (key (heap_of s ob) k).order_id ≡ some (key (heap_of s ob) k)
view-resting ob s k sound p =
    view-some ob _ (resting_at s ob k) ((From-IsSound s ob sound).resting k p).listed

-- What is seen stands in the heap of its side.
pub record Seen (ob : Orderbook) (id : String) (o : Order) : Type 0 where
  pub half : Side
  pub place : ℕ
  pub side : o.side ≡ half
  pub inside : place < depth half ob
  pub same : key (heap_of half ob) place ≡ o
  pub id_of : o.order_id ≡ id

module _ (ob : Orderbook) (sound : IsSound ob) (id : String) (p : ℕ)
    (found : lookup id ob.orders ≡ some p) where
  Seen-at :
      (s : Side) (k : ℕ) → k < depth s ob → resting_at s ob k ≡ p → Seen ob id (erase (ob.mem p))
  Seen-at s k q at = record {
    half = s;
    place = k;
    side = subst (λ x. (ob.mem x).side ≡ s) at ((From-IsSound s ob sound).resting k q).side;
    inside = q;
    same = ap (λ x. erase (ob.mem x)) at;
    id_of = (sound.map id p found).0;
  }

  seen : Seen ob id (erase (ob.mem p))
  seen = elim (sound.map id p found).1 [
    | inl (k, q, at) ↦ Seen-at buy k q at
    | inr (k, q, at) ↦ Seen-at sell k q at
  ]

pub view-Seen :
    (ob : Orderbook) (id : String) (o : Order) → IsSound ob → view ob id ≡ some o → Seen ob id o
view-Seen ob id o sound e = elim (Option-cases (lookup id ob.orders)) [
  | inl missing ↦ let n = view-none ob id missing in cc
  | inr (p, found) ↦
      let s = view-some ob id p found in subst (Seen ob id) (cc) (seen ob sound id p found)
]

module _ (ob ob' : Orderbook) (kept : (p : ℕ) → erase (ob'.mem p) ≡ erase (ob.mem p)) where
  order_at-kept : (found : Option ℕ) → order_at ob'.mem found ≡ order_at ob.mem found
  order_at-kept none = refl
  order_at-kept (some p) = ap some (kept p)

  -- A book whose map has lost one id, if any, and whose orders are the same but for their places.
  pub view-delete :
      (id : String)
      → ((j : String) → lookup j ob'.orders ≡ (if str_eq id j then none else lookup j ob.orders))
      → view ob' ≡ take_out id (view ob)
  unfolding view
  view-delete id gone = fun_ext (λ j. elim (Bool-cases (str_eq id j)) [
    | inl mine ↦ rw (gone j) (rw mine refl)
    | inr other ↦ rw (gone j) (rw other (order_at-kept (lookup j ob.orders)))
  ])

  pub view-same : ((j : String) → lookup j ob'.orders ≡ lookup j ob.orders) → view ob' ≡ view ob
  unfolding view
  view-same same = fun_ext (λ j. rw (same j) (order_at-kept (lookup j ob.orders)))
