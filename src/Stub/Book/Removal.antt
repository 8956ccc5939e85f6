-- ===== src/Stub/Book/Removal.antt =====
-- Taking an order out of its heap and out of the map keeps the book sound.
use iicpc_sh.Prelude.{
  ℕ, ◌≡◌, ◌≢◌, ◌<◌, refl, arith, sym, ◌∙◌, inl, inr, ◌⊎◌, some, ap, List, String, str_eq_iff, subst,
}
use iicpc_sh.Prelude.Assoc.{lookup, delete, lookup-delete, lookup-delete-some}
use iicpc_sh.Stub.Types.{Side, Order}
use iicpc_sh.Stub.Heap.{Heap, ptr_at}
use iicpc_sh.Stub.Heap.Size.{size}
use iicpc_sh.Stub.Heap.Priority.{erase}
use iicpc_sh.Stub.Heap.Remove.{IsOrdered, Removed}
use iicpc_sh.Stub.Book.{opposite}
use iicpc_sh.Stub.Book.Sound.{In, beside, IsResting, Sides, IsOrdered-SameRank, opposite_ne}

-- What `IsResting` reads of an order.
pub IsResting-erase :
    (s : Side) (next : ℕ) (orders : List (String × ℕ)) (p : ℕ) (o o' : Order)
    → erase o' ≡ erase o
    → IsResting s next orders p o
    → IsResting s next orders p o'
IsResting-erase s next orders p o o' same r = record {
  side = ap (λ (x : Order). x.side) same ∙ r.side;
  type = ap (λ (x : Order). x.order_type) same ∙ r.type;
  in_use = r.in_use;
  listed = rw (ap (λ (x : Order). x.order_id) same) r.listed;
}

-- Another order stays on the map.
IsResting-delete :
    (s : Side) (next : ℕ) (orders : List (String × ℕ)) (id : String) (p q : ℕ) (o : Order)
    → lookup id orders ≡ some q
    → p ≢ q
    → IsResting s next orders p o
    → IsResting s next (delete id orders) p o
IsResting-delete s next orders id p q o gone ne r = record {
  side = r.side;
  type = r.type;
  in_use = r.in_use;
  listed =
      ground (arith, lookup-delete id o.order_id orders, str_eq_iff id o.order_id, r.listed, gone);
}

module _ (s : Side) (h h' : Heap) (i : ℕ) (others : List ℕ) (next : ℕ) (orders : List (String × ℕ))
    (sound : Sides s h others next orders) (inside : i < size h) (gone : Removed s h i h') where
  abbrev id : String
  id = (h.mem (ptr_at h i)).order_id

  on_map : lookup id orders ≡ some (ptr_at h i)
  on_map = (sound.resting i inside).listed

  -- The heaps have no address in common.
  apart :
      (k j : ℕ) → k < size h → j < size (beside h others) → ptr_at h k ≢ ptr_at (beside h others) j
  apart k j p q e = opposite_ne s (
      sym (sound.others_resting j q).side
      ∙ ap (λ x. (h.mem x).side) (sym e)
      ∙ (sound.resting k p).side)

  others_kept :
      (j : ℕ)
      → j < size (beside h others)
      → h'.mem (ptr_at (beside h others) j) ≡ h.mem (ptr_at (beside h others) j)
  others_kept j q = gone.outside _ (λ k p. apart k j p q)

  removed-IsResting :
      (k : ℕ)
      → k < size h'
      → IsResting s next (delete id orders) (ptr_at h' k) (h'.mem (ptr_at h' k))
  removed-IsResting k p =
      let (k', q, e, ne) = gone.from k p in
      IsResting-erase s next (delete id orders) _ _ _ (gone.kept _) (
        IsResting-delete s next orders id _ _ _ on_map ne
          (subst (λ x. IsResting s next orders x (h.mem x)) (sym e) (sound.resting k' q)))

  removed-others :
      (j : ℕ)
      → j < size (beside h others)
      → IsResting
          (opposite s)
          next
          (delete id orders)
          (ptr_at (beside h others) j)
          (h'.mem (ptr_at (beside h others) j))
  removed-others j q = IsResting-erase (opposite s) next (delete id orders) _ _ _ (gone.kept _) (
      IsResting-delete (opposite s) next orders id _ _ _ on_map (λ e. apart i j inside q (sym e))
        (sound.others_resting j q))

  removed-IsOrdered : IsOrdered (opposite s) (beside h' others)
  removed-IsOrdered =
      IsOrdered-SameRank (opposite s) (beside h others) h'.mem
        (λ j q. rw (others_kept j q) (refl, refl, refl)) sound.others_ordered

  removed-map :
      (x : String) (p : ℕ)
      → lookup x (delete id orders) ≡ some p
      → ((h'.mem p).order_id ≡ x) × (In h' p ⊎ In (beside h' others) p)
  removed-map x p e =
      let (other, was) = lookup-delete-some id x orders e in
      let (same, at) = sound.map x p was in
      let ne : p ≢ ptr_at h i = λ e'. other (sym (ap (λ q. (h.mem q).order_id) e') ∙ same) in
      (
        ap (λ (o : Order). o.order_id) (gone.kept p) ∙ same,
        elim at [
          | inl (k, q, at_k) ↦
              let (k', q', e') = gone.to k q (λ e''. ne (sym at_k ∙ e'')) in
              inl (k', q', sym e' ∙ at_k)
          | inr there ↦ inr there
        ],
      )

  pub removed-Sides : Sides s h' others next (delete id orders)
  removed-Sides = record {
    ordered = gone.ordered;
    others_ordered = removed-IsOrdered;
    resting = removed-IsResting;
    others_resting = removed-others;
    map = removed-map;
  }
