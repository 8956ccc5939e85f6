-- ===== src/Stub/Book/Resting.antt =====
-- A new order on a heap and on the map keeps the book sound.
use iicpc_sh.Prelude.{
  ℕ, suc, ◌≡◌, ◌≢◌, ◌<◌, refl, arith, sym, ◌∙◌, inl, inr, ◌⊎◌, some, none, ap, List, String, str_eq,
  str_eq_iff, Bool-cases, subst,
}
use iicpc_sh.Prelude.Assoc.{lookup, insert, lookup-insert}
use iicpc_sh.Stub.Types.{Side, Order, limit}
use iicpc_sh.Stub.Heap.{Heap, ptr_at, push, update}
use iicpc_sh.Stub.Heap.Size.{size}
use iicpc_sh.Stub.Heap.Remove.{IsOrdered}
use iicpc_sh.Stub.Heap.Laws.{Pushed, push-Pushed}
use iicpc_sh.Stub.Book.{opposite}
use iicpc_sh.Stub.Book.Sound.{In, beside, IsResting, Sides, IsOrdered-SameRank, opposite_ne}
use iicpc_sh.Stub.Book.Removal.{IsResting-erase}

module _ (s : Side) (h : Heap) (others : List ℕ) (next : ℕ) (orders : List (String × ℕ))
    (sound : Sides s h others next orders) (o : Order) (side : o.side ≡ s)
    (type : o.order_type ≡ limit) (new : lookup o.order_id orders ≡ none) where
  -- The order stored at the next address.
  abbrev pub stored : Heap
  stored = record { mem = update h.mem next o; arr = h.arr }

  abbrev orders' : List (String × ℕ)
  orders' = insert o.order_id next orders

  stored_old : (p : ℕ) → p < next → stored.mem p ≡ h.mem p
  stored_old p q = ground arith

  old : (k : ℕ) → k < size h → stored.mem (ptr_at h k) ≡ h.mem (ptr_at h k)
  old k p = stored_old (ptr_at h k) (sound.resting k p).in_use

  old_other :
      (j : ℕ)
      → j < size (beside h others)
      → stored.mem (ptr_at (beside h others) j) ≡ h.mem (ptr_at (beside h others) j)
  old_other j q = stored_old (ptr_at (beside h others) j) (sound.others_resting j q).in_use

  stored-IsOrdered : IsOrdered s stored
  stored-IsOrdered =
      IsOrdered-SameRank s h stored.mem (λ k p. rw (old k p) (refl, refl, refl)) sound.ordered

  fresh : (k : ℕ) → k < size h → ptr_at h k ≢ next
  fresh k p e = absurd (omega (arith, (sound.resting k p).in_use, e))

  pub stored-Pushed : Pushed s stored next (push s stored next)
  stored-Pushed = push-Pushed s stored next stored-IsOrdered fresh

  -- An order that rested before rests still.
  older :
      (t : Side) (p : ℕ)
      → IsResting t next orders p (h.mem p)
      → IsResting t (suc next) orders' p (h.mem p)
  older t p r = record {
    side = r.side;
    type = r.type;
    in_use = omega (arith, r.in_use);
    listed = ground (
      arith,
      lookup-insert o.order_id (h.mem p).order_id next orders,
      str_eq_iff o.order_id (h.mem p).order_id,
      r.listed,
      new,
    );
  }

  newest : IsResting s (suc next) orders' next o
  newest = record {
    side = side;
    type = type;
    in_use = omega arith;
    listed =
        ground (
          arith,
          lookup-insert o.order_id o.order_id next orders,
          str_eq_iff o.order_id o.order_id,
        );
  }

  stored_next : stored.mem next ≡ o
  stored_next = ground arith

  pushed-IsResting :
      (k : ℕ)
      → k < size (push s stored next)
      → IsResting s
          (suc next)
          orders'
          (ptr_at (push s stored next) k)
          ((push s stored next).mem (ptr_at (push s stored next) k))
  pushed-IsResting k p =
      IsResting-erase s (suc next) orders' _ _ _ (stored-Pushed.kept _)
        (elim (stored-Pushed.from k p) [
          | inl e ↦
              subst (λ x. IsResting s (suc next) orders' x (stored.mem x)) (sym e)
                (subst (λ x. IsResting s (suc next) orders' next x) (sym stored_next) newest)
          | inr (k', q, e) ↦
              subst (λ x. IsResting s (suc next) orders' x (stored.mem x)) (sym e)
                (subst (λ x. IsResting s (suc next) orders' (ptr_at h k') x) (sym (old k' q))
                  (older s _ (sound.resting k' q)))
        ])

  apart' :
      (j : ℕ)
      → j < size (beside h others)
      → (push s stored next).mem (ptr_at (beside h others) j) ≡ h.mem (ptr_at (beside h others) j)
  apart' j q =
      stored-Pushed.outside _
        (λ k p e. opposite_ne s (
          sym (sound.others_resting j q).side
          ∙ ap (λ x. (h.mem x).side) (sym e)
          ∙ (sound.resting k p).side))
        (λ e. absurd (omega (arith, (sound.others_resting j q).in_use, e)))
      ∙ old_other j q

  pushed_id : (p : ℕ) → ((push s stored next).mem p).order_id ≡ (stored.mem p).order_id
  pushed_id p = ap (λ (x : Order). x.order_id) (stored-Pushed.kept p)

  is_old :
      (id : String) (p : ℕ)
      → lookup id orders ≡ some p
      → (p < next) × (In (push s stored next) p ⊎ In (beside h others) p)
  is_old id p e = elim (sound.map id p e).1 [
    | inl (k, q, at) ↦
        let (k', q', e') = stored-Pushed.to k q in
        (subst (λ x. x < next) at (sound.resting k q).in_use, inl (k', q', sym e' ∙ at))
    | inr (j, q, at) ↦ (subst (λ x. x < next) at (sound.others_resting j q).in_use, inr (j, q, at))
  ]

  pushed_map :
      (id : String) (p : ℕ)
      → lookup id orders' ≡ some p
      → (((push s stored next).mem p).order_id ≡ id)
        × (In (push s stored next) p ⊎ In (beside (push s stored next) others) p)
  pushed_map id p e = elim (Bool-cases (str_eq o.order_id id)) [
    | inl mine ↦
        let at : next ≡ p = ground (arith, lookup-insert o.order_id id next orders) in
        (
          subst (λ x. ((push s stored next).mem x).order_id ≡ id) at
              (pushed_id next
                ∙ ap (λ (x : Order). x.order_id) stored_next
                ∙ (str_eq_iff o.order_id id).0 mine),
          inl (subst (In (push s stored next)) at stored-Pushed.added),
        )
    | inr other ↦
        let was : lookup id orders ≡ some p =
          ground (arith, lookup-insert o.order_id id next orders) in
        let (below, at) = is_old id p was in
        (
          pushed_id p
              ∙ ap (λ (x : Order). x.order_id) (stored_old p below)
              ∙ (sound.map id p was).0,
          at,
        )
  ]

  pub pushed-Sides : Sides s (push s stored next) others (suc next) orders'
  pushed-Sides = record {
    ordered = stored-Pushed.ordered;
    others_ordered =
        IsOrdered-SameRank (opposite s) (beside h others) (push s stored next).mem
          (λ j q. rw (apart' j q) (refl, refl, refl)) sound.others_ordered;
    resting = pushed-IsResting;
    others_resting = λ j q.
        subst (λ x. IsResting (opposite s) (suc next) orders' (ptr_at (beside h others) j) x)
          (sym (apart' j q)) (older (opposite s) _ (sound.others_resting j q));
    map = pushed_map;
  }
