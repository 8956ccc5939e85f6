-- ===== src/BotRunner/Correctness/AgainstStub.antt =====
-- services/bot-runner/correctness_bot.go against services/stub/main.go: what the stub makes of the
-- requests of the correctness bot, and what the bot reads from it.
--
-- One connection is open at a time, its session named after its sequence, and nobody else trades. The
-- prices of the sequences are whole numbers, which are floats exactly; the stub counts a price in
-- units of 2^-1074. Every message that the stub sends arrives before the step's deadline, and one
-- that a step does not read is read by the next step. GET /orderbook gives the numbers of levels.
pub mod Perfect
use Prim.Native.Nat.{◌^◌}
use iicpc_sh.Prelude.{
  ℕ, suc, zero, get_or, ◌+◌, ◌*◌, ◌/◌, ◌≡◌, refl, ℤ, pos, negsuc, Bool, true, false, Option, none,
  some, List, [], ◌∷◌, ◌++◌, map, String, str_append, if◌then◌else◌, length,
}
use iicpc_sh.Prelude.Assoc.{lookup, insert}
use iicpc_sh.Stub.Types.{
  IncomingMessage, Order, Message, ack, fill, reject, cancel_ack, Side as StubSide, buy as bids_of,
  sell as asks_of,
}
use iicpc_sh.Stub.Clock.{Clock}
use iicpc_sh.Stub.Book.{new_orderbook}
use iicpc_sh.Stub.Session.{Stub, Event, received as receives, closed, handle_event}
use iicpc_sh.Stub.Snapshot.{snapshot}
use iicpc_sh.BotRunner.Sequence.{
  Step, Sequence, Side, buy, sell, no_side, OrderType, limit, market, no_type,
  correctness_sequences,
}
use iicpc_sh.BotRunner.Correctness.{
  Read, received, failed, Reply, Io, Got, got_nothing, note, enough, is_cancel, untagged, next_tags,
  Network, run, is_some,
}

-- 1.0 in units of 2^-1074
unfoldable pub unit : ℕ
unit = 2 ^ 1074

abbrev pub digit : ℕ → String
digit i = get_or ("0" ∷ "1" ∷ "2" ∷ []) i "3"

-- `fmt.Sprintf("cx-s%d-%s", i, step.Tag)`; a sequence has at most four steps.
unfoldable pub order_id : ℕ × String → String
order_id (i, tag) = str_append "cx-s" (str_append (digit i) (str_append "-" tag))

abbrev pub side_text : Side → String
side_text buy = "buy"
side_text sell = "sell"
side_text no_side = ""

abbrev pub type_text : OrderType → String
type_text limit = "limit"
type_text market = "market"
type_text no_type = ""

abbrev pub or_no_tag : Option (ℕ × String) → ℕ × String
or_no_tag none = (0, "")
or_no_tag (some t) = t

-- The payload of a step, as the stub decodes it; a field that is not sent is empty.
unfoldable pub request : ℕ → List (String × (ℕ × String)) → Step → IncomingMessage
request i tags s =
    if is_cancel s.kind
    then record {
      type = "cancel";
      order_id = order_id (or_no_tag (lookup s.cancel_tag tags));
      side = "";
      order_type = "";
      price = pos 0;
      quantity = pos 0;
    }
    else record {
      type = "order";
      order_id = order_id (i, s.tag);
      side = side_text s.side;
      order_type = type_text s.order_type;
      price = pos (s.price / 100 * unit);
      quantity = pos s.quantity;
    }

abbrev pub in_hundredths : ℤ → ℕ
in_hundredths (pos n) = n * 100 / unit
in_hundredths (negsuc n) = 0

-- What the bot decodes of a message of the stub.
unfoldable pub decode : Message → Reply
decode (ack id ts) = record { type = "ack"; filled_qty = pos 0; fill_price = 0 }
decode (fill f) = record {
  type = "fill";
  filled_qty = pos f.filled_qty;
  fill_price = in_hundredths f.fill_price;
}
decode (reject id reason ts) = record { type = "reject"; filled_qty = pos 0; fill_price = 0 }
decode (cancel_ack id ts) = record { type = "cancel_ack"; filled_qty = pos 0; fill_price = 0 }

-- The replies that the read loop of a step leaves on the connection.
unfoldable pub unread : Step → Got → List Reply → List Reply
unread s g [] = []
unread s g (r ∷ rs) =
    let g' = note g r in let more = unread s g' rs in if enough s g' then rs else more

abbrev pub nothing_arrives : Io
nothing_arrives = record { written = false; reads = []; book = none }

-- The steps of a sequence on its connection: the stub in the end, and what each step meets. A step
-- without its tag sends nothing.
unfoldable pub play_steps :
    String → Stub → ℕ → List (String × (ℕ × String)) → List Reply → List Step → Stub × List Io
play_steps session st i tags waiting [] = (st, [])
play_steps session st i tags waiting (s ∷ ss) =
    let (st', sent) = handle_event st session (receives (request i tags s)) in
    let replies = waiting ++ map decode sent in
    let io : Io = record {
      written = true;
      reads = map received replies ++ (failed ∷ []);
      book = some (length (snapshot bids_of st'.book), length (snapshot asks_of st'.book));
    } in
    let missing = untagged s tags in
    let (end, ios) =
      play_steps session (if missing then st else st') (suc i) (next_tags i s tags)
        (if missing then waiting else unread s got_nothing replies) ss in
    (end, (if missing then nothing_arrives else io) ∷ ios)

-- The sequences one after the other; the connection of each is closed before the next.
unfoldable pub play_all : Stub → List Sequence → List (String × List Io)
play_all st [] = []
play_all st (seq ∷ seqs) =
    let (st', ios) = play_steps seq.name st 0 [] [] seq.steps in
    let st'' = (handle_event st' seq.name closed).0 in (seq.name, ios) ∷ play_all st'' seqs

abbrev pub io_at : List Io → ℕ → Io
io_at [] i = nothing_arrives
io_at (io ∷ ios) zero = io
io_at (io ∷ ios) (suc i) = io_at ios i

abbrev pub as_network : List (String × List Io) → Network
as_network played name = elim (lookup name played) [
  | none ↦ (false, λ i. nothing_arrives)
  | some ios ↦ (true, io_at ios)
]

-- The network of a run of the bot against a stub that has just started.
unfoldable pub stub_network : (ℕ → Order) → Clock → Network
stub_network mem clock =
    as_network (play_all (record { book = new_orderbook mem; clock = clock }) correctness_sequences)
