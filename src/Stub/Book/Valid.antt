-- ===== src/Stub/Book/Valid.antt =====
-- The whole invariant of the order book, and that each operation keeps it.
use iicpc_sh.Prelude.{
  ℕ, ℤ, ◌≡◌, ◌<◌, ◌<ℤ◌, refl, arith, sym, ◌∙◌, inl, inr, ◌⊎◌, none, ap, String, if◌then◌else◌,
  subst, true, ◌==◌, ltb→lt,
}
use iicpc_sh.Prelude.Assoc.{lookup}
use iicpc_sh.Stub.Types.{Side, buy, sell, Order, limit}
use iicpc_sh.Stub.Clock.{Clock}
use iicpc_sh.Stub.Heap.{Heap, ptr_at, update, less}
use iicpc_sh.Stub.Heap
use iicpc_sh.Stub.Heap.Priority.{erase}
use iicpc_sh.Stub.Book.{
  Orderbook, opposite, heap_of, set_heap, match, short_of, rest, remove, cancel_session,
  new_orderbook,
}
use iicpc_sh.Stub.Book.Loop.{depth}
use iicpc_sh.Stub.Book.Sound.{From, IsSound, From-IsSound}
use iicpc_sh.Stub.Book.Resting.{stored-Pushed}
use iicpc_sh.Stub.Book.Steps.{
  match-IsSound, rest-IsSound, remove-IsSound, cancel_session-IsSound, new_orderbook-IsSound,
  on_map,
}
use iicpc_sh.Stub.Book.Shrinks.{Shrinks, resting_at, match-Shrinks}
use iicpc_sh.Stub.Book.Live.{IsLive, match-IsLive}
use iicpc_sh.Stub.Book.Drops.{Drops, Drops-Shrinks, remove-Drops, cancel_session-Drops}

abbrev pub price_at : Side → Orderbook → ℕ → ℤ
price_at s ob k = (ob.mem (resting_at s ob k)).price

-- Every bid is below every ask.
abbrev pub IsUncrossed : Orderbook → Type 0
IsUncrossed ob =
    (i : ℕ)
    → i < depth buy ob
    → (j : ℕ) → j < depth sell ob
    → price_at buy ob i <ℤ price_at sell ob j

-- The heaps, the orders and the map agree, no resting order is filled, and the book is not crossed.
pub record IsValid (ob : Orderbook) : Type 0 where
  pub sound : IsSound ob
  pub live : IsLive ob
  pub uncrossed : IsUncrossed ob

pub Shrinks-price :
    (ob ob' : Orderbook)
    → Shrinks ob ob'
    → (s : Side) (k : ℕ) → k < depth s ob'
    → (k' : ℕ) × (k' < depth s ob) × (price_at s ob' k ≡ price_at s ob k')
Shrinks-price ob ob' sh s k p =
    let (k', q, e) = sh.from s k p in
    (
      k',
      q,
      ap (λ (o : Order). o.price) (sh.kept (resting_at s ob' k)) ∙ ap (λ x. (ob.mem x).price) e,
    )

Shrinks-IsUncrossed : (ob ob' : Orderbook) → Shrinks ob ob' → IsUncrossed ob → IsUncrossed ob'
Shrinks-IsUncrossed ob ob' sh un i p j q =
    let (i', p', e) = Shrinks-price ob ob' sh buy i p in
    let (j', q', e') = Shrinks-price ob ob' sh sell j q in rw (e, e') (un i' p' j' q')

Drops-IsLive : (ob ob' : Orderbook) → Drops ob ob' → IsLive ob → IsLive ob'
Drops-IsLive ob ob' d live s k p =
    let (k', q, e) = d.from s k p in
    rw (ap (λ (o : Order). o.remaining) (d.kept (resting_at s ob' k)), e) (live s k' q)

pub match-IsValid :
    (ob : Orderbook) (order : Order) (clock : Clock)
    → IsValid ob
    → IsValid (match ob order clock).book
match-IsValid ob order clock v = record {
  sound = match-IsSound ob order clock v.sound;
  live = match-IsLive ob order clock v.sound v.live;
  uncrossed = Shrinks-IsUncrossed ob _ (match-Shrinks ob order clock v.sound) v.uncrossed;
}

Drops-IsValid : (ob ob' : Orderbook) → IsSound ob' → Drops ob ob' → IsValid ob → IsValid ob'
Drops-IsValid ob ob' sound d v = record {
  sound = sound;
  live = Drops-IsLive ob ob' d v.live;
  uncrossed = Shrinks-IsUncrossed ob ob' (Drops-Shrinks ob ob' d) v.uncrossed;
}

pub remove-IsValid : (ob : Orderbook) (id : String) → IsValid ob → IsValid (remove ob id)
remove-IsValid ob id v =
    Drops-IsValid ob _ (remove-IsSound ob id v.sound) (remove-Drops ob id v.sound) v

pub cancel_session-IsValid :
    (ob : Orderbook) (session_id : String) → IsValid ob → IsValid (cancel_session ob session_id)
cancel_session-IsValid ob session_id v =
    Drops-IsValid ob _ (cancel_session-IsSound ob session_id v.sound)
      (cancel_session-Drops ob session_id v.sound) v

new_orderbook-IsLive : (mem : ℕ → Order) → IsLive (new_orderbook mem)
unfolding new_orderbook
new_orderbook-IsLive mem buy k p = absurd (omega arith)
new_orderbook-IsLive mem sell k p = absurd (omega arith)

pub new_orderbook-IsValid : (mem : ℕ → Order) → IsValid (new_orderbook mem)
unfolding new_orderbook
new_orderbook-IsValid mem = record {
  sound = new_orderbook-IsSound mem;
  live = new_orderbook-IsLive mem;
  uncrossed = λ i p. absurd (omega arith);
}

-- The book after `rest`, by the side of the order.
abbrev rested : Side → Orderbook → Order → Orderbook
rested s ob o = set_heap s (Heap.push s (heap_of s (on_map ob o)) ob.next) (on_map ob o)

rested-kept :
    (s : Side) (ob : Orderbook) (o : Order)
    → From s ob
    → o.side ≡ s
    → o.order_type ≡ limit
    → lookup o.order_id ob.orders ≡ none
    → (p : ℕ) → erase ((rested s ob o).mem p) ≡ erase (if ob.next == p then o else ob.mem p)
rested-kept buy ob o sound side type new =
    (stored-Pushed buy (heap_of buy ob) ob.asks ob.next ob.orders sound o side type new).kept
rested-kept sell ob o sound side type new =
    (stored-Pushed sell (heap_of sell ob) ob.bids ob.next ob.orders sound o side type new).kept

-- What `rest` adds: the order at a new address on its side, and nothing on the other.
rested-From :
    (s t : Side) (ob : Orderbook) (o : Order)
    → From s ob
    → o.side ≡ s
    → o.order_type ≡ limit
    → lookup o.order_id ob.orders ≡ none
    → (k : ℕ) → k < depth t (rested s ob o)
    → (t ≡ s) × (resting_at t (rested s ob o) k ≡ ob.next)
      ⊎ ((k' : ℕ) × (k' < depth t ob) × (resting_at t (rested s ob o) k ≡ resting_at t ob k'))
rested-From buy buy ob o sound side type new k p =
    elim ((stored-Pushed buy (heap_of buy ob) ob.asks ob.next ob.orders sound o side type new).from
      k p) [ inl e ↦ inl (refl, e) | inr old ↦ inr old ]
rested-From sell sell ob o sound side type new k p =
    elim ((stored-Pushed sell (heap_of sell ob) ob.bids ob.next ob.orders sound o side type
        new).from
      k p) [ inl e ↦ inl (refl, e) | inr old ↦ inr old ]
rested-From buy sell ob o sound side type new k p = inr (k, p, refl)
rested-From sell buy ob o sound side type new k p = inr (k, p, refl)

-- Every order that rests on the other side is beyond the limit of this one.
abbrev pub IsClear : Orderbook → Order → Type 0
IsClear ob o =
    (k : ℕ)
    → k < depth (opposite o.side) ob
    → short_of o.side o.price (price_at (opposite o.side) ob k) ≡ true

module _ (ob : Orderbook) (o : Order) (v : IsValid ob) (type : o.order_type ≡ limit)
    (new : lookup o.order_id ob.orders ≡ none) where
  new_here : (p : ℕ) → p ≡ ob.next → (if ob.next == p then o else ob.mem p) ≡ o
  new_here p e = ground arith

  old_here : (p q : ℕ) → p ≡ q → q < ob.next → (if ob.next == p then o else ob.mem p) ≡ ob.mem q
  old_here p q e below = ground arith

  -- A resting order is the new one or an old one, with the price and the quantity that it had.
  rest-order :
      (t : Side) (k : ℕ)
      → k < depth t (rest ob o)
      → (t ≡ o.side)
          × (price_at t (rest ob o) k ≡ o.price)
          × (((rest ob o).mem (resting_at t (rest ob o) k)).remaining ≡ o.remaining)
        ⊎ ((k' : ℕ) × (k' < depth t ob)
            × (price_at t (rest ob o) k ≡ price_at t ob k')
            × (((rest ob o).mem (resting_at t (rest ob o) k)).remaining
                ≡ (ob.mem (resting_at t ob k')).remaining))
  unfolding rest
  rest-order t k p =
      let sound = From-IsSound o.side ob v.sound in
      let kept = rested-kept o.side ob o sound refl type new (resting_at t (rest ob o) k) in
      elim (rested-From o.side t ob o sound refl type new k p) [
        | inl (e, at) ↦
            let same = kept ∙ ap erase (new_here (resting_at t (rest ob o) k) at) in
            inl (e, ap (λ (x : Order). x.price) same, ap (λ (x : Order). x.remaining) same)
        | inr (k', q, at) ↦
            let below = (From-IsSound t ob v.sound).resting k' q in
            let same =
              kept
              ∙ ap erase
                  (old_here (resting_at t (rest ob o) k) (resting_at t ob k') at below.in_use) in
            inr (k', q, ap (λ (x : Order). x.price) same, ap (λ (x : Order). x.remaining) same)
      ]

  rest-IsLive : 0 < o.remaining → IsLive (rest ob o)
  rest-IsLive wants t k p = elim (rest-order t k p) [
    | inl (e, price, left) ↦ rw left wants
    | inr (k', q, price, left) ↦ rw left (v.live t k' q)
  ]

  clear_at :
      (s : Side)
      → o.side ≡ s
      → IsClear ob o
      → (k : ℕ) → k < depth (opposite s) ob
      → short_of s o.price (price_at (opposite s) ob k) ≡ true
  clear_at s e clear =
      subst
        (λ x.
          (k : ℕ)
          → k < depth (opposite x) ob
          → short_of x o.price (price_at (opposite x) ob k) ≡ true)
        e clear

  rest-IsUncrossed : IsClear ob o → IsUncrossed (rest ob o)
  rest-IsUncrossed clear i p j q = elim (rest-order buy i p) [
    | inl (e, price, _) ↦ elim (rest-order sell j q) [
      | inl (e', _, _) ↦ cc
      | inr (j', q', price', _) ↦ rw (price, price') (ltb→lt _ _ (clear_at buy (sym e) clear j' q'))
    ]
    | inr (i', p', price, _) ↦ elim (rest-order sell j q) [
      | inl (e', price', _) ↦ rw (price, price') (ltb→lt _ _ (clear_at sell (sym e') clear i' p'))
      | inr (j', q', price', _) ↦ rw (price, price') (v.uncrossed i' p' j' q')
    ]
  ]

  -- A limit order whose limit reaches no order of the other side may rest.
  pub rest-IsValid : 0 < o.remaining → IsClear ob o → IsValid (rest ob o)
  rest-IsValid wants clear = record {
    sound = rest-IsSound ob o v.sound type new;
    live = rest-IsLive wants;
    uncrossed = rest-IsUncrossed clear;
  }
