-- ===== src/Stub/Types.antt =====
-- services/stub/main.go: the messages of the wire protocol and the Order struct.
--
-- A price is a float64 that is only copied and compared. Every finite float64 is an integer number
-- of 2^-1074, so a price is read exactly as that integer; JSON carries no NaN and no infinity.
-- A quantity of a message is an int64 (ℤ); an order's is positive, and so a plain number.
use iicpc_sh.Prelude.{ℕ, ℤ, String, Option}

pub data Side : Type 0 where
  buy sell : Side

pub data OrderType : Type 0 where
  limit market : OrderType

pub record IncomingMessage : Type 0 where
  pub type : String
  pub order_id : String
  pub side : String
  pub order_type : String
  pub price : ℤ
  pub quantity : ℤ

pub record Order : Type 0 where
  pub order_id : String
  pub side : Side
  pub order_type : OrderType
  pub price : ℤ
  pub quantity : ℕ
  pub remaining : ℕ
  pub entered_at : ℤ
  pub session_id : String
  -- the heap index for removal; `none` is the -1 of an order that is in no heap
  pub index : Option ℕ

pub record FillMessage : Type 0 where
  pub order_id : String
  pub filled_qty : ℕ
  pub fill_price : ℤ
  pub remaining : ℕ
  pub timestamp : ℤ

pub data Reason : Type 0 where
  invalid_order invalid_quantity invalid_price duplicate_order_id no_liquidity unknown_order :
      Reason
  unauthorized unknown_type : Reason

-- What a session sends: AckMessage, FillMessage, RejectMessage, CancelAckMessage.
pub data Message : Type 0 where
  ack : String → ℤ → Message
  fill : FillMessage → Message
  reject : String → Reason → ℤ → Message
  cancel_ack : String → ℤ → Message
