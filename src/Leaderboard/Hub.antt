-- ===== src/Leaderboard/Hub.antt =====
-- services/leaderboard-ws/hub.go: the hub and the goroutines of its clients.
--
-- A client is a number, and `next` is the number of the next one. The hub's loop, the handlers of the
-- clients and their writers act on the channels one at a time, so a list of events is an
-- interleaving; a `select` that may take several channels takes any of them. A send on a closed
-- channel and a second close panic: the result is then `none`.
-- quitCh, which ends the hub's loop, is the end of a list.
pub mod Placed
pub mod Closed
pub mod Missed
use iicpc_sh.Prelude.{
  ℕ, zero, suc, ◌+◌, Bool, true, false, not, ◌&&◌, ◌||◌, Option, none, some, List, [], ◌∷◌, ◌++◌,
  ltb, ◌==◌, if◌then◌else◌, length,
}

-- A client's `send` channel: its messages, and whether it is closed.
pub record Hub : Type 0 where
  pub clients : ℕ → Bool
  pub reg_ch : List ℕ
  pub unreg_ch : List ℕ
  pub msg_ch : List ℕ
  pub send : ℕ → List ℕ
  pub closed : ℕ → Bool
  pub live : ℕ → Bool
  pub next : ℕ

-- newHub
abbrev pub new_hub : Hub
new_hub = record {
  clients = λ c. false;
  reg_ch = [];
  unreg_ch = [];
  msg_ch = [];
  send = λ c. [];
  closed = λ c. false;
  live = λ c. false;
  next = 0;
}

abbrev pub put {ℓ} : {A : Type ℓ} → (ℕ → A) → ℕ → A → ℕ → A
put f c a d = if c == d then a else f d

-- `select { case ch <- x: default: }` on a channel with `capacity` places.
abbrev pub offer : ℕ → List ℕ → ℕ → List ℕ
offer capacity ch x = if ltb (length ch) capacity then ch ++ (x ∷ []) else ch

-- wsHandler up to the registration; a client that is rejected runs its deferred function.
unfoldable pub connect : Hub → Hub
connect h =
    let c : ℕ = h.next in
    if ltb (length h.reg_ch) 64
    then record h { reg_ch = h.reg_ch ++ (c ∷ []); live = put h.live c true; next = suc c }
    else record h { unreg_ch = offer 64 h.unreg_ch c; next = suc c }

-- The snapshot that a handler sends to its own channel.
unfoldable pub send_snapshot : Hub → ℕ → ℕ → Option Hub
send_snapshot h c m =
    let sent : Hub = record h { send = put h.send c (offer 256 (h.send c) m) } in
    let checked : Option Hub = if h.closed c then none else some sent in
    if h.live c then checked else some h

-- The deferred function of a handler that ends.
unfoldable pub disconnect : Hub → ℕ → Hub
disconnect h c =
    if h.live c then record h { live = put h.live c false; unreg_ch = offer 64 h.unreg_ch c } else h

-- broadcast
unfoldable pub broadcast : Hub → ℕ → Hub
broadcast h m = record h { msg_ch = offer 256 h.msg_ch m }

-- The case of regCh in run; nothing happens while the channel is empty.
unfoldable pub take_reg : Hub → List ℕ → Hub
take_reg h [] = h
take_reg h (c ∷ cs) = record h { reg_ch = cs; clients = put h.clients c true }

-- The case of unregCh.
unfoldable pub take_unreg : Hub → List ℕ → Option Hub
take_unreg h [] = some h
take_unreg h (c ∷ cs) =
    let gone : Hub = record h {
      unreg_ch = cs;
      clients = put h.clients c false;
      closed = put h.closed c true;
    } in
    let checked : Option Hub = if h.closed c then none else some gone in
    if h.clients c then checked else some (record h { unreg_ch = cs })

-- Some client below `n` has a closed channel.
unfoldable pub any_closed : Hub → ℕ → Bool
any_closed h zero = false
any_closed h (suc n) = let rest = any_closed h n in if h.clients n && h.closed n then true else rest

-- The case of msgCh: the message goes to each client that has room for it.
unfoldable pub take_msg : Hub → List ℕ → Option Hub
take_msg h [] = some h
take_msg h (m ∷ ms) =
    if any_closed h h.next
    then none
    else some (record h {
      msg_ch = ms;
      send = λ c. if h.clients c then offer 256 (h.send c) m else h.send c;
    })

-- A client's writer takes a message from its channel.
abbrev pub tail : List ℕ → List ℕ
tail [] = []
tail (m ∷ ms) = ms

unfoldable pub write_one : Hub → ℕ → Hub
write_one h c = record h { send = put h.send c (tail (h.send c)) }

pub data Event : Type 0 where
  connects reg_taken unreg_taken msg_taken : Event
  snapshots : ℕ → ℕ → Event
  disconnects writes broadcasts : ℕ → Event

unfoldable pub step : Hub → Event → Option Hub
step h connects = some (connect h)
step h reg_taken = some (take_reg h h.reg_ch)
step h unreg_taken = take_unreg h h.unreg_ch
step h msg_taken = take_msg h h.msg_ch
step h (snapshots c m) = send_snapshot h c m
step h (disconnects c) = some (disconnect h c)
step h (writes c) = some (write_one h c)
step h (broadcasts m) = some (broadcast h m)

-- The hub after some events, or `none` if one of them panics.
unfoldable pub steps : Hub → List Event → Option Hub
steps h [] = some h
steps h (e ∷ es) = elim (step h e) [ none ↦ none | some h' ↦ steps h' es ]
