-- ===== src/BotRunner/Sequence.antt =====
-- services/bot-runner/sequence.go: the order sequences of the load bots and of the correctness bot.
--
-- Prices are counted in hundredths, the tolerance of the correctness bot. An expectation that is not
-- checked (0 for a price or a quantity, -1 for a number of book levels) is `none`.
pub mod Bands
use iicpc_sh.Prelude.{
  ℕ, String, Bool, true, false, Option, none, some, List, [], ◌∷◌, ◌+◌, ◌-◌, ◌*◌,
}

-- The strings of the two fields `Side` and `OrderType`; a cancel step leaves them empty.
pub data Side : Type 0 where
  buy sell no_side : Side

pub data OrderType : Type 0 where
  limit market no_type : OrderType

pub data StepKind : Type 0 where
  step_order step_cancel : StepKind

pub record Step : Type 0 where
  pub kind : StepKind
  pub side : Side
  pub order_type : OrderType
  pub price : ℕ
  pub quantity : ℕ
  pub tag : String
  pub cancel_tag : String
  pub expect_fill : Bool
  pub expect_fill_price : Option ℕ
  pub expect_fill_qty : Option ℕ
  pub expect_reject : Bool
  pub expect_book_bids : Option ℕ
  pub expect_book_asks : Option ℕ

pub record Sequence : Type 0 where
  pub name : String
  pub steps : List Step

abbrev pub hundredths : ℕ → ℕ
hundredths n = n * 100

-- An order step with nothing to check.
abbrev pub order_step : String → Side → OrderType → ℕ → ℕ → Step
order_step tag side order_type price quantity = record {
  kind = step_order;
  side = side;
  order_type = order_type;
  price = price;
  quantity = quantity;
  tag = tag;
  cancel_tag = "";
  expect_fill = false;
  expect_fill_price = none;
  expect_fill_qty = none;
  expect_reject = false;
  expect_book_bids = none;
  expect_book_asks = none;
}

abbrev pub cancel_step : String → Step
cancel_step cancel_tag = record (order_step "" no_side no_type 0 0) {
  kind = step_cancel;
  cancel_tag = cancel_tag;
}

-- `expect_levels bids asks step` adds the two expectations on the book.
abbrev pub expect_levels : Option ℕ → Option ℕ → Step → Step
expect_levels bids asks s = record s { expect_book_bids = bids; expect_book_asks = asks }

abbrev pub expect_fill_of : Option ℕ → Option ℕ → Step → Step
expect_fill_of price qty s = record s {
  expect_fill = true;
  expect_fill_price = price;
  expect_fill_qty = qty;
}

-- basePrice
abbrev pub base_price : ℕ → ℕ
base_price bot_id = hundredths ((bot_id + 1) * 1000)

abbrev pub basic_match : ℕ → Sequence
basic_match bot_id =
    let p = base_price bot_id in
    record {
      name = "basic_match";
      steps = order_step "bid1" buy limit p 10 ∷ order_step "ask1" sell limit p 10 ∷ [];
    }

abbrev pub partial_fill_ladder : ℕ → Sequence
partial_fill_ladder bot_id =
    let p = base_price bot_id in
    record {
      name = "partial_fill_ladder";
      steps =
          order_step "bid-0" buy limit p 5
          ∷ order_step "bid-1" buy limit (p - hundredths 1) 5
          ∷ order_step "bid-2" buy limit (p - hundredths 2) 5
          ∷ order_step "sweep" sell market 0 15
          ∷ [];
    }

abbrev pub cancel_correctness : ℕ → Sequence
cancel_correctness bot_id =
    let p = base_price bot_id in
    record {
      name = "cancel_correctness";
      steps =
          order_step "resting" buy limit p 10
          ∷ cancel_step "resting"
          ∷ order_step "probe" sell limit p 10
          ∷ cancel_step "probe"
          ∷ [];
    }

-- sequences
abbrev pub sequences : ℕ → List Sequence
sequences bot_id = basic_match bot_id ∷ partial_fill_ladder bot_id ∷ cancel_correctness bot_id ∷ []

abbrev pub correctness_base_price : ℕ
correctness_base_price = hundredths 500

abbrev pub cx_basic_match : Sequence
cx_basic_match =
    let p : ℕ = correctness_base_price in
    record {
      name = "cx_basic_match";
      steps =
          expect_levels (some 1) none (order_step "bid" buy limit p 10)
          ∷ expect_levels (some 0) (some 0)
              (expect_fill_of (some p) (some 10) (order_step "ask" sell limit p 10))
          ∷ [];
    }

abbrev pub cx_priority_fill : Sequence
cx_priority_fill =
    let p : ℕ = correctness_base_price in
    record {
      name = "cx_priority_fill";
      steps =
          expect_levels (some 1) none (order_step "bid-lo" buy limit p 5)
          ∷ expect_levels (some 2) none (order_step "bid-hi" buy limit (p + hundredths 1) 5)
          ∷ expect_levels (some 0) (some 0)
              (expect_fill_of (some (p + hundredths 1)) none (order_step "sell" sell limit p 10))
          ∷ [];
    }

abbrev pub cx_partial_fill : Sequence
cx_partial_fill =
    let p : ℕ = correctness_base_price + hundredths 10 in
    record {
      name = "cx_partial_fill";
      steps =
          expect_levels (some 1) none (order_step "bid" buy limit p 10)
          ∷ expect_levels (some 1) (some 0)
              (expect_fill_of (some p) (some 3) (order_step "ask" sell limit p 3))
          ∷ expect_levels (some 0) (some 0) (cancel_step "bid")
          ∷ [];
    }

abbrev pub cx_cancel : Sequence
cx_cancel =
    let p : ℕ = correctness_base_price + hundredths 20 in
    record {
      name = "cx_cancel";
      steps =
          expect_levels (some 1) none (order_step "bid" buy limit p 10)
          ∷ expect_levels (some 0) (some 0) (cancel_step "bid")
          ∷ expect_levels (some 0) (some 1) (order_step "ask" sell limit p 10)
          ∷ expect_levels (some 0) (some 0) (cancel_step "ask")
          ∷ [];
    }

abbrev pub cx_reject_market_no_liquidity : Sequence
cx_reject_market_no_liquidity = record {
  name = "cx_reject_market_no_liquidity";
  steps =
      expect_levels (some 0) (some 0)
        (record (order_step "mkt" sell market 0 10) { expect_reject = true })
      ∷ [];
}

-- CorrectnessSequences
abbrev pub correctness_sequences : List Sequence
correctness_sequences =
    cx_basic_match ∷ cx_priority_fill ∷ cx_partial_fill ∷ cx_cancel ∷ cx_reject_market_no_liquidity
    ∷ []
