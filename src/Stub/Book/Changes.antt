-- ===== src/Stub/Book/Changes.antt =====
-- A change of the quantities, a rearrangement of a heap and a new order keep the book sound.
use iicpc_sh.Prelude.{ℕ, ◌≡◌, ◌≢◌, ◌<◌, refl, arith, sym, ◌∙◌, inl, inr, ap, List, String, subst}
use iicpc_sh.Stub.Types.{Side, Order}
use iicpc_sh.Stub.Heap.{Heap, ptr_at}
use iicpc_sh.Stub.Heap.Size.{size}
use iicpc_sh.Stub.Heap.Moves.{Moves}
use iicpc_sh.Stub.Heap.Remove.{IsOrdered}
use iicpc_sh.Stub.Book.{opposite}
use iicpc_sh.Stub.Book.Sound.{beside, IsResting, Sides, IsOrdered-SameRank, opposite_ne, SameRank}
use iicpc_sh.Stub.Book.Removal.{IsResting-erase}

-- An order but for what is left of it.
abbrev pub without_remaining : Order → Order
without_remaining o = record o { remaining = 0 }

module _ (s : Side) (h : Heap) (others : List ℕ) (next : ℕ) (orders : List (String × ℕ))
    (sound : Sides s h others next orders) where
  module _ (mem : ℕ → Order)
      (same : (p : ℕ) → without_remaining (mem p) ≡ without_remaining (h.mem p)) where
    still-IsResting :
        (t : Side) (p : ℕ) → IsResting t next orders p (h.mem p) → IsResting t next orders p (mem p)
    still-IsResting t p r = record {
      side = ap (λ (x : Order). x.side) (same p) ∙ r.side;
      type = ap (λ (x : Order). x.order_type) (same p) ∙ r.type;
      in_use = r.in_use;
      listed = rw (ap (λ (x : Order). x.order_id) (same p)) r.listed;
    }

    same_rank : (p : ℕ) → SameRank (mem p) (h.mem p)
    same_rank p = (
      ap (λ (x : Order). x.price) (same p),
      ap (λ (x : Order). x.entered_at) (same p),
      ap (λ (x : Order). x.index) (same p),
    )

    -- The quantities may change.
    pub remaining-Sides : Sides s (record { mem = mem; arr = h.arr }) others next orders
    remaining-Sides = record {
      ordered = IsOrdered-SameRank s h mem (λ k p. same_rank (ptr_at h k)) sound.ordered;
      others_ordered =
          IsOrdered-SameRank (opposite s) (beside h others) mem
            (λ k p. same_rank (ptr_at (beside h others) k)) sound.others_ordered;
      resting = λ k p. still-IsResting s _ (sound.resting k p);
      others_resting = λ k p. still-IsResting (opposite s) _ (sound.others_resting k p);
      map = λ id p e.
          let (at_id, at) = sound.map id p e in
          (ap (λ (x : Order). x.order_id) (same p) ∙ at_id, at);
    }

  -- The heaps have no address in common.
  pub apart :
      (k j : ℕ) → k < size h → j < size (beside h others) → ptr_at h k ≢ ptr_at (beside h others) j
  apart k j p q e = opposite_ne s (
      sym (sound.others_resting j q).side
      ∙ ap (λ x. (h.mem x).side) (sym e)
      ∙ (sound.resting k p).side)

  module _ (h' : Heap) (moves : Moves (size h) h h') (ord : IsOrdered s h') where
    moved-IsResting :
        (k : ℕ) → k < size h' → IsResting s next orders (ptr_at h' k) (h'.mem (ptr_at h' k))
    moved-IsResting k p =
        let (k', q, e) = moves.from k (omega (arith, moves.size)) in
        IsResting-erase s next orders _ _ _ (moves.kept _)
          (subst (λ x. IsResting s next orders x (h.mem x)) (sym e) (sound.resting k' q))

    -- A rearrangement that is in order.
    pub moved-Sides : Sides s h' others next orders
    moved-Sides = record {
      ordered = ord;
      others_ordered =
          IsOrdered-SameRank (opposite s) (beside h others) h'.mem
            (λ j q. rw (moves.outside _ (λ k p. apart k j p q)) (refl, refl, refl))
            sound.others_ordered;
      resting = moved-IsResting;
      others_resting = λ j q.
          IsResting-erase (opposite s) next orders _ _ _ (moves.kept _) (sound.others_resting j q);
      map = λ id p e.
          let (at_id, at) = sound.map id p e in
          (
            ap (λ (o : Order). o.order_id) (moves.kept p) ∙ at_id,
            elim at [
              | inl (k, q, at_k) ↦
                  let (k', q', e') = moves.to k q in
                  inl (k', omega (arith, moves.size), sym e' ∙ at_k)
              | inr there ↦ inr there
            ],
          );
    }
