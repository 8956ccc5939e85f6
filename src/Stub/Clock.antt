-- ===== src/Stub/Clock.antt =====
-- services/stub/main.go: `now`, the strictly increasing clock of the stub. The readings of the
-- wall clock are an arbitrary sequence `wall`, of which each call takes the next. Calls of other
-- goroutines that come between two calls only raise the last timestamp, as a later reading of the
-- wall clock does. Clock/Race.antt has the compare-and-swap loop of several goroutines.
pub mod Race
use iicpc_sh.Prelude.{ℕ, ℤ, pos, negsuc, ◌+◌, ◌-◌, ◌==◌, leb_ℤ, if◌then◌else◌}

abbrev pub max_int64 : ℤ
max_int64 = pos 9223372036854775807

abbrev pub min_int64 : ℤ
min_int64 = negsuc 9223372036854775807

-- int64 `x + 1`, which wraps at the top.
unfoldable pub inc_int64 : ℤ → ℤ
inc_int64 (pos n) = if n == 9223372036854775807 then min_int64 else pos (n + 1)
inc_int64 (negsuc n) = if n == 0 then pos 0 else negsuc (n - 1)

-- One round of the loop of `now`: the timestamp to try, from one reading and the last timestamp.
unfoldable pub candidate : ℤ → ℤ → ℤ
unfolding inc_int64
candidate ts old = if leb_ℤ ts old then inc_int64 old else ts

pub record Clock : Type 0 where
  pub last_timestamp : ℤ
  pub wall : ℕ → ℤ
  pub readings : ℕ

-- `now`, when no other goroutine interferes: the first compare-and-swap succeeds.
unfoldable pub now : Clock → ℤ × Clock
unfolding candidate
now c =
    let ts = candidate (c.wall c.readings) c.last_timestamp in
    (ts, record c { last_timestamp = ts; readings = c.readings + 1 })
