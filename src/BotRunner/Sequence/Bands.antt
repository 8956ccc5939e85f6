-- ===== src/BotRunner/Sequence/Bands.antt =====
-- The prices of the load bots and of the correctness bot, and the tags of their cancels.
use iicpc_sh.Prelude.{
  ℕ, ◌+◌, ◌-◌, ◌≤◌, ◌<◌, arith, Bool, true, false, List, [], ◌∷◌, ◌++◌, All, if◌then◌else◌,
}
use iicpc_sh.BotRunner.Sequence.{
  Step, OrderType, limit, market, no_type, Sequence, sequences, base_price, hundredths,
}

abbrev pub is_limit : OrderType → Bool
is_limit limit = true
is_limit market = false
is_limit no_type = false

-- The prices of the limit orders of some steps, and of some sequences.
abbrev pub step_prices : List Step → List ℕ
step_prices [] = []
step_prices (s ∷ ss) = (if is_limit s.order_type then s.price ∷ [] else []) ++ step_prices ss

abbrev pub limit_prices : List Sequence → List ℕ
limit_prices [] = []
limit_prices (seq ∷ seqs) = step_prices seq.steps ++ limit_prices seqs

-- Each price is in a band of three prices.
abbrev pub InBand : ℕ → ℕ → Type 0
InBand bot_id p = (base_price bot_id ≤ p + hundredths 2) × (p ≤ base_price bot_id)

sequences-InBand : (bot_id : ℕ) → All (InBand bot_id) (limit_prices (sequences bot_id))
sequences-InBand bot_id =
    let at : InBand bot_id (base_price bot_id) = (omega arith, omega arith) in
    let one : InBand bot_id (base_price bot_id - hundredths 1) = (omega arith, omega arith) in
    let two : InBand bot_id (base_price bot_id - hundredths 2) = (omega arith, omega arith) in
    (at, (at, (at, (one, (two, (at, (at, record {})))))))

All-InBand-below :
    (i j : ℕ) (qs : List ℕ) (p : ℕ) → i < j → InBand i p → All (InBand j) qs → All (λ q. p < q) qs
All-InBand-below i j [] p h b hs = record {}
All-InBand-below i j (q ∷ qs) p h b (low, rest) =
    let l = low.0 in let u = b.1 in (omega arith, All-InBand-below i j qs p h b rest)

All-InBand-apart :
    (i j : ℕ) (ps qs : List ℕ)
    → i < j
    → All (InBand i) ps
    → All (InBand j) qs
    → All (λ p. All (λ q. p < q) qs) ps
All-InBand-apart i j [] qs h ps hs = record {}
All-InBand-apart i j (p ∷ ps) qs h (low, rest) hs =
    (All-InBand-below i j qs p h low hs, All-InBand-apart i j ps qs h rest hs)

-- Every limit price of a load bot is below every limit price of a bot with a greater id: the bands
-- of the bots do not overlap.
pub sequences-apart :
    (i j : ℕ)
    → i < j
    → All (λ p. All (λ q. p < q) (limit_prices (sequences j))) (limit_prices (sequences i))
sequences-apart i j h =
    All-InBand-apart i j (limit_prices (sequences i)) (limit_prices (sequences j)) h
      (sequences-InBand i) (sequences-InBand j)
