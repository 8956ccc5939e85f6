-- ===== src/Stub/Exchange/Refines.antt =====
-- `match` of services/stub/main.go does what the exchange does.
use iicpc_sh.Prelude.{
  ℕ, zero, suc, ℤ, ◌≡◌, ◌<◌, ◌&&◌, some, refl, arith, sym, ◌∙◌, inl, inr, ap, subst, Bool-cases,
  true, false, String, List, [], ◌∷◌, ◌++◌, map, ltb,
}
use mathlib.Core.List.{append_assoc, append-nil, map-append}
use iicpc_sh.Stub.Types.{Side, buy, sell, Order, OrderType, limit, market}
use iicpc_sh.Stub.Clock.{Clock}
use iicpc_sh.Stub.Heap.{less}
use iicpc_sh.Stub.Heap.Priority.{NotAfter, erase}
use iicpc_sh.Stub.Heap.Moves.{key}
use iicpc_sh.Stub.Heap.Laws.{root_first}
use iicpc_sh.Stub.Book.{
  Orderbook, Matching, opposite, heap_of, best, can_fill, fill_best, match_loop, rounds, match,
  beyond, short_of, is_limit,
}
use iicpc_sh.Stub.Book.Loop.{depth, start, rounds-fill_best}
use iicpc_sh.Stub.Book.Sound.{IsSound, From-IsSound}
use iicpc_sh.Stub.Book.Steps.{book_after-IsSound}
use iicpc_sh.Stub.Book.Priority.{NotWorse}
use iicpc_sh.Stub.Exchange.{
  view, Precedes, IsBest, IsFinished, Trade, Matches, finished, trades, trade_of,
}
use iicpc_sh.Stub.Exchange.View.{view-resting, view-Seen}
use iicpc_sh.Stub.Exchange.Fills.{book_after-view}

NotAfter-Precedes :
    (taker : Side) (a b : Order) → NotAfter (opposite taker) a b → Precedes taker a b
unfolding less
NotAfter-Precedes buy a b h = record { price = ground arith; time = λ e. ground arith }
NotAfter-Precedes sell a b h = record { price = ground arith; time = λ e. ground arith }

-- A price beyond the limit, and one that is not better than it.
out_of_reach :
    (taker : Side) (p best_price q : ℤ)
    → short_of taker p best_price ≡ true
    → NotWorse taker best_price q
    → short_of taker p q ≡ true
out_of_reach buy p b q h k = ground arith
out_of_reach sell p b q h k = ground arith

limit_type : (t : OrderType) → is_limit t ≡ true → t ≡ limit
limit_type limit h = refl
limit_type market h = cc

module _ (m : Matching) (sound : IsSound m.book) where
  abbrev s : Side
  s = opposite m.order.side

  -- The root of the other side precedes whatever is seen there.
  root-Precedes :
      (id : String) (o : Order)
      → view m.book id ≡ some o
      → o.side ≡ s
      → (0 < depth s m.book) × Precedes m.order.side (erase (best m)) o
  root-Precedes id o e side =
      let seen = view-Seen m.book id o sound e in
      let here : seen.half ≡ s = sym seen.side ∙ side in
      let inside : seen.place < depth s m.book =
        subst (λ x. seen.place < depth x m.book) here seen.inside in
      let same : key (heap_of s m.book) seen.place ≡ o =
        subst (λ x. key (heap_of x m.book) seen.place ≡ o) here seen.same in
      (
        omega arith,
        subst (Precedes m.order.side (erase (best m))) same (
            NotAfter-Precedes m.order.side _ _ (
              root_first s (heap_of s m.book) seen.place (From-IsSound s m.book sound).ordered
                inside)),
      )

  best-IsBest : can_fill m ≡ true → IsBest (view m.book) m.order (erase (best m))
  unfolding can_fill beyond
  best-IsBest go =
      let left : 0 < depth s m.book = ground arith in
      record {
        listed = view-resting m.book s 0 sound left;
        side = ((From-IsSound s m.book sound).resting 0 left).side;
        accepted = λ type. ground arith;
        first = λ id o e side. (root-Precedes id o e side).1;
      }

  stop-IsFinished : can_fill m ≡ false → IsFinished (view m.book) m.order
  unfolding can_fill beyond
  stop-IsFinished stop = elim (Bool-cases (ltb 0 m.order.remaining)) [
    | inr none_left ↦ inl (ground arith)
    | inl wants ↦ inr (λ id o e side accepts.
        let (left, first) = root-Precedes id o e side in
        let far : (is_limit m.order.order_type
              && short_of m.order.side m.order.price (best m).price)
            ≡ true =
          ground arith in
        let worse =
          out_of_reach m.order.side m.order.price (best m).price o.price (ground arith)
            first.price in
        let near = accepts (limit_type m.order.order_type (ground arith)) in cc)
  ]

-- The trades that the loop adds, and that the exchange makes the same.
record LoopMatches (m m' : Matching) : Type 0 where
  ts : List Trade
  added : map trade_of m'.fills ≡ map trade_of m.fills ++ ts
  matches : Matches (view m.book) m.order ts (view m'.book) m'.order

step-LoopMatches :
    (m m' : Matching)
    → IsSound m.book
    → can_fill m ≡ true
    → LoopMatches (fill_best m) m'
    → LoopMatches m m'
unfolding fill_best
step-LoopMatches m m' sound go rest =
    let left : 0 < depth (opposite m.order.side) m.book = unfold can_fill in ground arith in
    let wants : 0 < m.order.remaining = unfold can_fill in ground arith in
    record {
      ts = _ ∷ rest.ts;
      added =
          rest.added
          ∙ ap (λ xs. xs ++ rest.ts) (map-append trade_of m.fills _)
          ∙ append_assoc (map trade_of m.fills) _ rest.ts;
      matches = trades (erase (best m)) wants (best-IsBest m sound go) (
          subst (λ b. Matches b (fill_best m).order rest.ts (view m'.book) m'.order)
            (book_after-view m sound left) rest.matches);
    }

match_loop-LoopMatches :
    (fuel : ℕ) (m : Matching) → IsSound m.book → rounds m < fuel → LoopMatches m (match_loop fuel m)
unfolding match_loop
match_loop-LoopMatches zero m sound enough = absurd (omega arith)
match_loop-LoopMatches (suc fuel) m sound enough = elim (Bool-cases (can_fill m)) [
  | inl go ↦
      let left : 0 < depth (opposite m.order.side) m.book = unfold can_fill in ground arith in
      rw go (
        step-LoopMatches m _ sound go (
          match_loop-LoopMatches fuel (fill_best m)
            (unfold fill_best in book_after-IsSound m sound left)
            (omega (arith, rounds-fill_best m go))))
  | inr stop ↦ rw stop (record {
    ts = [];
    added = sym (append-nil (map trade_of m.fills));
    matches = finished (stop-IsFinished m sound stop);
  })
]

-- On a sound book, match makes the trades that the exchange makes, in their order, each with a resting
-- order that none on its side precedes, until the order is filled or no acceptable order rests; and
-- it leaves the resting orders and the incoming order as the exchange does.
pub match-Matches :
    (ob : Orderbook) (order : Order) (clock : Clock)
    → IsSound ob
    → let m = match ob order clock in
      Matches (view ob) order (map trade_of m.fills) (view m.book) m.order
unfolding match
match-Matches ob order clock sound =
    let m = start ob order clock in
    let m' = match_loop (suc (rounds m)) m in
    let loop = match_loop-LoopMatches (suc (rounds m)) m sound (omega arith) in
    subst (λ ts. Matches (view ob) order ts (view m'.book) m'.order) (sym loop.added) loop.matches
