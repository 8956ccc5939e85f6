-- ===== src/Stub/Exchange/Tests.antt =====
-- The exchange on concrete inputs.
use iicpc_sh.Prelude.{◌≡◌, refl, pos, none, map}
use iicpc_sh.Prelude.Assoc.{lookup, insert, delete, IsMap}
use iicpc_sh.Stub.Types.{Order, sell}
use iicpc_sh.Stub.Book.{Orderbook, new_orderbook, match, rest, remove}
use iicpc_sh.Stub.Book.Valid.{new_orderbook-IsValid}
use iicpc_sh.Stub.Book.Sound.{IsSound}
use iicpc_sh.Stub.Book.Steps.{rest-IsSound}
use iicpc_sh.Stub.Session.{serve}
use iicpc_sh.Stub.Exchange.{view, Matches, trade_of}
use iicpc_sh.Stub.Exchange.Refines.{match-Matches}
use iicpc_sh.Stub.Exchange.Changes.{remove-rest}
use iicpc_sh.Stub.Exchange.Handling.{Serves}
use iicpc_sh.Stub.Exchange.Serving.{serve-Serves}
use iicpc_sh.Stub.Tests.{blank, empty_stub, trading, two_asks, two_asks-IsValid, bid}

match-Matches_example :
    Matches
      (view two_asks.book)
      bid
      (map trade_of (match two_asks.book bid two_asks.clock).fills)
      (view (match two_asks.book bid two_asks.clock).book)
      (match two_asks.book bid two_asks.clock).order
match-Matches_example = match-Matches two_asks.book bid two_asks.clock two_asks-IsValid.sound

empty-IsMap : IsMap empty_stub.book.orders
unfolding IsMap new_orderbook
empty-IsMap = tt

serve-Serves_example :
    Serves
      (view empty_stub.book)
      trading
      (serve empty_stub trading).1
      (view (serve empty_stub trading).0.book)
serve-Serves_example =
    serve-Serves empty_stub trading (new_orderbook-IsValid (λ p. blank)) empty-IsMap

-- A book on which one ask rests.
abbrev ask : Order
ask = record blank { order_id = "a1"; side = sell; price = pos 100; remaining = 5 }

abbrev one_ask : Orderbook
one_ask = rest (new_orderbook (λ p. blank)) ask

ask-new : lookup ask.order_id (new_orderbook (λ p. blank)).orders ≡ none
unfolding lookup new_orderbook
ask-new = refl

one_ask-IsSound : IsSound one_ask
one_ask-IsSound =
    rest-IsSound (new_orderbook (λ p. blank)) ask (new_orderbook-IsValid (λ p. blank)).sound refl
      ask-new

bid-new : lookup bid.order_id one_ask.orders ≡ none
unfolding lookup rest insert delete new_orderbook
bid-new = refl

remove-rest_example : view (remove (rest one_ask bid) bid.order_id) ≡ view one_ask
remove-rest_example = remove-rest one_ask bid one_ask-IsSound refl bid-new
