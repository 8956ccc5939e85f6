-- ===== src/Stub/Snapshot/Levels.antt =====
-- The levels of a snapshot against the orders of the book.
use iicpc_sh.Prelude.{
  ℕ, ℤ, ◌+◌, ◌≡◌, refl, arith, inl, inr, Bool, true, false, ◌||◌, List, [], ◌∷◌, eqb_ℤ,
  if◌then◌else◌, Bool-cases, All, sum_of, ◌∙◌, ap,
}
use iicpc_sh.Stub.Types.{Order, Side, buy, sell}
use iicpc_sh.Stub.Book.{Orderbook, side_of}
use iicpc_sh.Stub.Snapshot.{
  PriceLevel, add_int64, add_level, collect, before, insert_level, sort_levels, snapshot,
}

unfoldable pub has_level : ℤ → List PriceLevel → Bool
has_level x [] = false
has_level x (l ∷ ls) = let rest = has_level x ls in eqb_ℤ l.price x || rest

-- The quantity at a price, 0 if there is no level.
unfoldable pub quantity_at : ℤ → List PriceLevel → ℕ
quantity_at x [] = 0
quantity_at x (l ∷ ls) = let rest = quantity_at x ls in if eqb_ℤ l.price x then l.quantity else rest

-- No two levels have one price.
unfoldable AreDistinct : List PriceLevel → Type 0
AreDistinct [] = Unit {0}
AreDistinct (l ∷ ls) = (has_level l.price ls ≡ false) × AreDistinct ls

-- Each level comes before all later ones, strictly.
unfoldable pub AreSorted : Side → List PriceLevel → Type 0
AreSorted s [] = Unit {0}
AreSorted s (l ∷ ls) = All (λ (m : PriceLevel). before s l.price m.price ≡ true) ls × AreSorted s ls

has_level-add_level :
    (x p : ℤ) (q : ℕ) (ls : List PriceLevel)
    → has_level x (add_level p q ls) ≡ (eqb_ℤ p x || has_level x ls)
unfolding has_level add_level
has_level-add_level x p q [] = ground arith
has_level-add_level x p q (l ∷ ls) = let rest = has_level-add_level x p q ls in ground arith

quantity_at-add_level :
    (x p : ℤ) (q : ℕ) (ls : List PriceLevel)
    → quantity_at x (add_level p q ls)
      ≡ (if eqb_ℤ p x then add_int64 (quantity_at x ls) q else quantity_at x ls)
unfolding quantity_at add_level
quantity_at-add_level x p q [] = ground arith
quantity_at-add_level x p q (l ∷ ls) = let rest = quantity_at-add_level x p q ls in ground arith

add_level-AreDistinct :
    (p : ℤ) (q : ℕ) (ls : List PriceLevel) → AreDistinct ls → AreDistinct (add_level p q ls)
unfolding AreDistinct add_level has_level
add_level-AreDistinct p q [] d = (refl, record {})
add_level-AreDistinct p q (l ∷ ls) (new, d) = elim (Bool-cases (eqb_ℤ l.price p)) [
  | inl same ↦ rw same (new, d)
  | inr other ↦
      rw other (has_level-add_level l.price p q ls ∙ ground arith, add_level-AreDistinct p q ls d)
]

-- The orders' remaining quantity at a price.
abbrev pub resting_at_price : (ℕ → Order) → ℤ → List ℕ → ℕ
resting_at_price mem x = sum_of (λ p. if eqb_ℤ (mem p).price x then (mem p).remaining else 0)

collect-AreDistinct :
    (mem : ℕ → Order) (ps : List ℕ) (ls : List PriceLevel)
    → AreDistinct ls
    → AreDistinct (collect mem ps ls)
unfolding collect
collect-AreDistinct mem [] ls d = d
collect-AreDistinct mem (p ∷ ps) ls d =
    collect-AreDistinct mem ps _ (add_level-AreDistinct (mem p).price (mem p).remaining ls d)

add_int64_assoc : (a b c : ℕ) → add_int64 (add_int64 a b) c ≡ add_int64 a (b + c)
unfolding add_int64
add_int64_assoc a b c = omega arith

added :
    (b : Bool) (k r others : ℕ)
    → add_int64 (if b then add_int64 k r else k) others
      ≡ add_int64 k ((if b then r else 0) + others)
added true k r others = add_int64_assoc k r others
added false k r others = ap (add_int64 k) (omega arith)

quantity_at-collect :
    (mem : ℕ → Order) (x : ℤ) (ps : List ℕ) (ls : List PriceLevel)
    → add_int64 (quantity_at x (collect mem ps ls)) 0
      ≡ add_int64 (quantity_at x ls) (resting_at_price mem x ps)
unfolding collect sum_of
quantity_at-collect mem x [] ls = refl
quantity_at-collect mem x (p ∷ ps) ls =
    let o = mem p in
    let rest = quantity_at-collect mem x ps (add_level o.price o.remaining ls) in
    let one = quantity_at-add_level x o.price o.remaining ls in
    let others : ℕ = resting_at_price mem x ps in
    rest
    ∙ ap (λ k. add_int64 k others) one
    ∙ added (eqb_ℤ o.price x) (quantity_at x ls) o.remaining others

or_swap : (a b c : Bool) → (a || (b || c)) ≡ (b || (a || c))
or_swap true true c = refl
or_swap true false c = refl
or_swap false b c = refl

has_level-insert_level :
    (s : Side) (x : ℤ) (l : PriceLevel) (ls : List PriceLevel)
    → has_level x (insert_level s l ls) ≡ (eqb_ℤ l.price x || has_level x ls)
unfolding has_level insert_level
has_level-insert_level s x l [] = refl
has_level-insert_level s x l (m ∷ ms) =
    let rest = has_level-insert_level s x l ms in
    elim (Bool-cases (before s l.price m.price)) [
      | inl first ↦ rw first refl
      | inr later ↦
          rw later (rw rest (or_swap (eqb_ℤ m.price x) (eqb_ℤ l.price x) (has_level x ms)))
    ]

quantity_at-insert_level :
    (s : Side) (x : ℤ) (l : PriceLevel) (ls : List PriceLevel)
    → has_level l.price ls ≡ false
    → quantity_at x (insert_level s l ls)
      ≡ (if eqb_ℤ l.price x then l.quantity else quantity_at x ls)
unfolding quantity_at insert_level has_level
quantity_at-insert_level s x l [] new = refl
quantity_at-insert_level s x l (m ∷ ms) new =
    let rest = quantity_at-insert_level s x l ms (ground arith) in
    let apart : eqb_ℤ m.price l.price ≡ false = ground arith in
    elim (Bool-cases (before s l.price m.price)) [
      | inl first ↦ rw first refl
      | inr later ↦ rw later (rw rest (ground arith))
    ]

has_level-sort_levels :
    (s : Side) (x : ℤ) (ls : List PriceLevel) → has_level x (sort_levels s ls) ≡ has_level x ls
unfolding has_level sort_levels
has_level-sort_levels s x [] = refl
has_level-sort_levels s x (l ∷ ls) =
    has_level-insert_level s x l (sort_levels s ls)
    ∙ ap (λ b. eqb_ℤ l.price x || b) (has_level-sort_levels s x ls)

quantity_at-sort_levels :
    (s : Side) (x : ℤ) (ls : List PriceLevel)
    → AreDistinct ls
    → quantity_at x (sort_levels s ls) ≡ quantity_at x ls
unfolding quantity_at sort_levels AreDistinct
quantity_at-sort_levels s x [] d = refl
quantity_at-sort_levels s x (l ∷ ls) (new, d) =
    quantity_at-insert_level s x l (sort_levels s ls) (has_level-sort_levels s l.price ls ∙ new)
    ∙ ap (λ k. if eqb_ℤ l.price x then l.quantity else k) (quantity_at-sort_levels s x ls d)

-- The first of the two prices, if they differ, comes before or after the other.
before_or : (s : Side) (a b : ℤ) → before s a b ≡ false → eqb_ℤ b a ≡ false → before s b a ≡ true
before_or buy a b h e = ground arith
before_or sell a b h e = ground arith

before_trans :
    (s : Side) (a b c : ℤ) → before s a b ≡ true → before s b c ≡ true → before s a c ≡ true
before_trans buy a b c h k = ground arith
before_trans sell a b c h k = ground arith

before-All :
    (s : Side) (a b : ℤ) (ls : List PriceLevel)
    → before s a b ≡ true
    → All (λ (m : PriceLevel). before s b m.price ≡ true) ls
    → All (λ (m : PriceLevel). before s a m.price ≡ true) ls
before-All s a b [] h k = record {}
before-All s a b (m ∷ ms) h (k, ks) = (before_trans s a b m.price h k, before-All s a b ms h ks)

insert_level-All :
    (s : Side) (a : ℤ) (l : PriceLevel) (ls : List PriceLevel)
    → before s a l.price ≡ true
    → All (λ (m : PriceLevel). before s a m.price ≡ true) ls
    → All (λ (m : PriceLevel). before s a m.price ≡ true) (insert_level s l ls)
unfolding insert_level
insert_level-All s a l [] h k = (h, k)
insert_level-All s a l (m ∷ ms) h (k, ks) = elim (Bool-cases (before s l.price m.price)) [
  | inl first ↦ rw first (h, (k, ks))
  | inr later ↦ rw later (k, insert_level-All s a l ms h ks)
]

insert_level-AreSorted :
    (s : Side) (l : PriceLevel) (ls : List PriceLevel)
    → has_level l.price ls ≡ false
    → AreSorted s ls
    → AreSorted s (insert_level s l ls)
unfolding AreSorted insert_level has_level
insert_level-AreSorted s l [] new d = (record {}, record {})
insert_level-AreSorted s l (m ∷ ms) new (above, d) = elim (Bool-cases (before s l.price m.price)) [
  | inl first ↦ rw first ((first, before-All s l.price m.price ms first above), (above, d))
  | inr later ↦ rw later (
    insert_level-All s m.price l ms (before_or s l.price m.price later (ground arith)) above,
    insert_level-AreSorted s l ms (ground arith) d,
  )
]

sort_levels-AreSorted :
    (s : Side) (ls : List PriceLevel) → AreDistinct ls → AreSorted s (sort_levels s ls)
unfolding AreSorted sort_levels AreDistinct
sort_levels-AreSorted s [] d = record {}
sort_levels-AreSorted s (l ∷ ls) (new, d) =
    insert_level-AreSorted s l (sort_levels s ls) (has_level-sort_levels s l.price ls ∙ new)
      (sort_levels-AreSorted s ls d)

-- The levels of a snapshot are strictly sorted, the best price first, and the quantity of each price
-- is the sum, as an int64, of what remains of the side's orders at the price.
pub snapshot-AreSorted :
    (s : Side) (ob : Orderbook)
    → AreSorted s (snapshot s ob)
      × ((x : ℤ)
          → add_int64 (quantity_at x (snapshot s ob)) 0
            ≡ add_int64 0 (resting_at_price ob.mem x (side_of s ob)))
unfolding snapshot AreDistinct quantity_at
snapshot-AreSorted s ob =
    let ls = collect ob.mem (side_of s ob) [] in
    let d = collect-AreDistinct ob.mem (side_of s ob) [] (record {}) in
    (
      sort_levels-AreSorted s ls d,
      λ x.
          ap (λ k. add_int64 k 0) (quantity_at-sort_levels s x ls d)
          ∙ quantity_at-collect ob.mem x (side_of s ob) [],
    )
