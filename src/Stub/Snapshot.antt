-- ===== src/Stub/Snapshot.antt =====
-- services/stub/main.go: orderbookHandler, the price levels of the two sides.
--
-- The maps from a price to a quantity are lists of levels, and sort.Slice is an insertion sort; the
-- order in which the map is walked does not matter, since no two levels have one price. A sum of
-- quantities is an int64 that wraps, kept as its 64 bits. The snapshot's timestamp is left out.
pub mod Levels
use iicpc_sh.Prelude.{ℕ, ℤ, ◌+◌, ◌%◌, Bool, true, false, List, [], ◌∷◌, ltb_ℤ, eqb_ℤ, if◌then◌else◌}
use iicpc_sh.Stub.Types.{Order, Side, buy, sell}
use iicpc_sh.Stub.Book.{Orderbook, side_of}

pub record PriceLevel : Type 0 where
  pub price : ℤ
  pub quantity : ℕ

-- The int64 addition.
unfoldable pub add_int64 : ℕ → ℕ → ℕ
add_int64 a b = (a + b) % 18446744073709551616

-- `m[p] += q`
unfoldable pub add_level : ℤ → ℕ → List PriceLevel → List PriceLevel
add_level p q [] = record { price = p; quantity = add_int64 0 q } ∷ []
add_level p q (l ∷ ls) =
    let rest = add_level p q ls in
    if eqb_ℤ l.price p
    then record { price = l.price; quantity = add_int64 l.quantity q } ∷ ls
    else l ∷ rest

-- The loop over a heap's orders.
unfoldable pub collect : (ℕ → Order) → List ℕ → List PriceLevel → List PriceLevel
collect mem [] levels = levels
collect mem (p ∷ ps) levels = collect mem ps (add_level (mem p).price (mem p).remaining levels)

-- The two functions that sort.Slice is given.
abbrev pub before : Side → ℤ → ℤ → Bool
before buy a b = ltb_ℤ b a
before sell a b = ltb_ℤ a b

unfoldable pub insert_level : Side → PriceLevel → List PriceLevel → List PriceLevel
insert_level s l [] = l ∷ []
insert_level s l (m ∷ ms) =
    let rest = insert_level s l ms in if before s l.price m.price then l ∷ m ∷ ms else m ∷ rest

unfoldable pub sort_levels : Side → List PriceLevel → List PriceLevel
sort_levels s [] = []
sort_levels s (l ∷ ls) = insert_level s l (sort_levels s ls)

-- The levels of one side in the response.
unfoldable pub snapshot : Side → Orderbook → List PriceLevel
snapshot s ob = sort_levels s (collect ob.mem (side_of s ob) [])
