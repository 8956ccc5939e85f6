-- ===== src/Ingester/Connect.antt =====
-- services/telemetry-ingester/ingester.go: connectRedis, connectPostgres and NewIngester.
--
-- The databases are an argument: a `RedisAttempt` or a `PostgresAttempt` says how one round of a loop goes.
-- `Opened` counts the clients and pools that were opened and not closed again. Waits are in seconds. A
-- loop waits for its next attempt where the attempts end.
use iicpc_sh.Prelude.{
  sym, subst, ℕ, zero, suc, ◌++◌, ◌*◌, ◌-◌, ◌≡◌, ◌≤◌, refl, arith, inl, Bool, true, false, List, [],
  ◌∷◌, ltb, if◌then◌else◌, All, replicate, length, ap, ◌⊎◌,
}

-- After a round that fails: the context is done, is done during the wait, or neither.
pub data Failure : Type 0 where
  done_at_once done_in_wait goes_on : Failure

-- The ping is answered or fails.
pub data RedisAttempt : Type 0 where
  redis_answers : RedisAttempt
  redis_fails : Failure → RedisAttempt

-- There is no pool; or there is one, and its ping is answered or fails.
pub data PostgresAttempt : Type 0 where
  no_pool : Failure → PostgresAttempt
  pool_answers : PostgresAttempt
  pool_fails : Failure → PostgresAttempt

pub data Connected : Type 0 where
  connected given_up connecting : Connected

pub record Opened : Type 0 where
  pub redis : ℕ
  pub postgres : ℕ

abbrev pub nothing_open : Opened
nothing_open = record { redis = 0; postgres = 0 }

-- redis.NewClient, (*redis.Client).Close, pgxpool.New and (*pgxpool.Pool).Close
abbrev pub open_redis : Opened → Opened
open_redis o = record o { redis = suc o.redis }

abbrev pub close_redis : Opened → Opened
close_redis o = record o { redis = o.redis - 1 }

abbrev pub open_pool : Opened → Opened
open_pool o = record o { postgres = suc o.postgres }

abbrev pub close_pool : Opened → Opened
close_pool o = record o { postgres = o.postgres - 1 }

-- How a loop ends, its waits and what is open then.
pub record End : Type 0 where
  pub end : Connected
  pub waits : List ℕ
  pub opened : Opened

abbrev pub ends : Connected → List ℕ → Opened → End
ends c waits o = record { end = c; waits = waits; opened = o }

abbrev pub after_wait : ℕ → End → End
after_wait backoff e = record e { waits = backoff ∷ e.waits }

-- `if backoff < 30*time.Second { backoff *= 2 }`
unfoldable pub next_backoff : ℕ → ℕ
next_backoff backoff = if ltb backoff 30 then backoff * 2 else backoff

-- The loop of connectRedis.
unfoldable pub redis_loop : ℕ → Opened → List RedisAttempt → End
redis_loop backoff o [] = ends connecting [] o
redis_loop backoff o (redis_answers ∷ rest) = ends connected [] o
redis_loop backoff o (redis_fails done_at_once ∷ rest) = ends given_up [] (close_redis o)
redis_loop backoff o (redis_fails done_in_wait ∷ rest) =
    ends given_up (backoff ∷ []) (close_redis o)
redis_loop backoff o (redis_fails goes_on ∷ rest) =
    after_wait backoff (redis_loop (next_backoff backoff) o rest)

unfoldable pub connect_redis : Opened → List RedisAttempt → End
connect_redis o attempts = redis_loop 1 (open_redis o) attempts

-- The loop of connectPostgres, which opens a pool in each round and closes one that does not answer.
unfoldable pub postgres_loop : ℕ → Opened → List PostgresAttempt → End
postgres_loop backoff o [] = ends connecting [] o
postgres_loop backoff o (pool_answers ∷ rest) = ends connected [] (open_pool o)
postgres_loop backoff o (no_pool done_at_once ∷ rest) = ends given_up [] o
postgres_loop backoff o (no_pool done_in_wait ∷ rest) = ends given_up (backoff ∷ []) o
postgres_loop backoff o (no_pool goes_on ∷ rest) =
    after_wait backoff (postgres_loop (next_backoff backoff) o rest)
postgres_loop backoff o (pool_fails done_at_once ∷ rest) =
    ends given_up [] (close_pool (open_pool o))
postgres_loop backoff o (pool_fails done_in_wait ∷ rest) =
    ends given_up (backoff ∷ []) (close_pool (open_pool o))
postgres_loop backoff o (pool_fails goes_on ∷ rest) =
    after_wait backoff (postgres_loop (next_backoff backoff) (close_pool (open_pool o)) rest)

unfoldable pub connect_postgres : Opened → List PostgresAttempt → End
connect_postgres o attempts = postgres_loop 1 o attempts

pub data Made : Type 0 where
  ingester no_redis no_postgres bad_latency waiting : Made

-- NewIngester after connectPostgres; `positive` is that MAX_LATENCY_US is above 0.
unfoldable pub after_postgres : Bool → Connected → Opened → Made × Opened
after_postgres positive given_up o = (no_postgres, close_redis o)
after_postgres positive connecting o = (waiting, o)
after_postgres true connected o = (ingester, o)
after_postgres false connected o = (bad_latency, o)

-- NewIngester after connectRedis.
unfoldable pub after_redis : Bool → List PostgresAttempt → Connected → Opened → Made × Opened
after_redis positive attempts given_up o = (no_redis, o)
after_redis positive attempts connecting o = (waiting, o)
after_redis positive attempts connected o =
    let p = connect_postgres o attempts in after_postgres positive p.end p.opened

-- NewIngester: how it ends, and what is open then.
unfoldable pub new_ingester : List RedisAttempt → List PostgresAttempt → Bool → Made × Opened
new_ingester redis_attempts postgres_attempts positive =
    let r = connect_redis nothing_open redis_attempts in
    after_redis positive postgres_attempts r.end r.opened

abbrev IsBackoff : ℕ → Type 0
IsBackoff b = (b ≡ 1) ⊎ ((b ≡ 2) ⊎ ((b ≡ 4) ⊎ ((b ≡ 8) ⊎ ((b ≡ 16) ⊎ (b ≡ 32)))))

next_backoff-IsBackoff : (b : ℕ) → IsBackoff b → IsBackoff (next_backoff b)
unfolding next_backoff
next_backoff-IsBackoff b h = ground arith

IsBackoff-bounded : (b : ℕ) → IsBackoff b → b ≤ 32
IsBackoff-bounded b h = ground arith

pub record Connects (k : ℕ) (e : End) : Type 0 where
  pub connects : e.end ≡ connected
  pub waits : length e.waits ≡ k
  pub bounded : All (λ w. w ≤ 32) e.waits

redis_loop-Connects :
    (k b : ℕ) (o : Opened) (rest : List RedisAttempt)
    → IsBackoff b
    → Connects k (redis_loop b o (replicate k (redis_fails goes_on) ++ (redis_answers ∷ rest)))
unfolding redis_loop
redis_loop-Connects zero b o rest h = record { connects = refl; waits = refl; bounded = tt }
redis_loop-Connects (suc k) b o rest h =
    let later = redis_loop-Connects k (next_backoff b) o rest (next_backoff-IsBackoff b h) in
    record {
      connects = later.connects;
      waits = ap suc later.waits;
      bounded = (IsBackoff-bounded b h, later.bounded);
    }

-- However often Redis does not answer, the first answer connects, after one wait of at most 32 seconds for
-- each failure.
connect_redis-Connects :
    (k : ℕ) (o : Opened) (rest : List RedisAttempt)
    → Connects k (connect_redis o (replicate k (redis_fails goes_on) ++ (redis_answers ∷ rest)))
unfolding connect_redis
connect_redis-Connects k o rest = redis_loop-Connects k 1 (open_redis o) rest (inl refl)

-- What the loop of connectRedis leaves of a client that it was given.
RedisLeaves : Opened → Connected → Opened → Type 0
RedisLeaves o connected o' = o' ≡ o
RedisLeaves o connecting o' = o' ≡ o
RedisLeaves o given_up o' = o' ≡ close_redis o

redis_loop-Leaves :
    (b : ℕ) (o : Opened) (attempts : List RedisAttempt)
    → RedisLeaves o (redis_loop b o attempts).end (redis_loop b o attempts).opened
unfolding redis_loop RedisLeaves
redis_loop-Leaves b o [] = refl
redis_loop-Leaves b o (redis_answers ∷ rest) = refl
redis_loop-Leaves b o (redis_fails done_at_once ∷ rest) = refl
redis_loop-Leaves b o (redis_fails done_in_wait ∷ rest) = refl
redis_loop-Leaves b o (redis_fails goes_on ∷ rest) = redis_loop-Leaves (next_backoff b) o rest

reopened : (o : Opened) → close_pool (open_pool o) ≡ o
reopened o =
    let same : suc o.postgres - 1 ≡ o.postgres = omega arith in
    λ i. record { redis = o.redis; postgres = same i }

PostgresLeaves : Opened → Connected → Opened → Type 0
PostgresLeaves o connected o' = o' ≡ open_pool o
PostgresLeaves o connecting o' = o' ≡ o
PostgresLeaves o given_up o' = o' ≡ o

postgres_loop-Leaves :
    (b : ℕ) (o : Opened) (attempts : List PostgresAttempt)
    → PostgresLeaves o (postgres_loop b o attempts).end (postgres_loop b o attempts).opened
unfolding postgres_loop PostgresLeaves
postgres_loop-Leaves b o [] = refl
postgres_loop-Leaves b o (pool_answers ∷ rest) = refl
postgres_loop-Leaves b o (no_pool done_at_once ∷ rest) = refl
postgres_loop-Leaves b o (no_pool done_in_wait ∷ rest) = refl
postgres_loop-Leaves b o (no_pool goes_on ∷ rest) = postgres_loop-Leaves (next_backoff b) o rest
postgres_loop-Leaves b o (pool_fails done_at_once ∷ rest) = reopened o
postgres_loop-Leaves b o (pool_fails done_in_wait ∷ rest) = reopened o
postgres_loop-Leaves b o (pool_fails goes_on ∷ rest) =
    let again = close_pool (open_pool o) in
    let e = postgres_loop (next_backoff b) again rest in
    subst (λ o'. PostgresLeaves o' e.end e.opened) (reopened o)
      (postgres_loop-Leaves (next_backoff b) again rest)

abbrev both_open : Opened
both_open = record { redis = 1; postgres = 1 }

-- How NewIngester ends, and what is open then.
pub data Leaves : Made → Opened → Type 0 where
  redis_closed : Leaves no_redis nothing_open
  both_closed : Leaves no_postgres nothing_open
  both_lost : Leaves bad_latency both_open
  both_used : Leaves ingester both_open
  still_waiting : (o : Opened) → o ≡ open_redis nothing_open → Leaves waiting o

after_postgres-Leaves :
    (positive : Bool) (c : Connected) (o : Opened)
    → PostgresLeaves (open_redis nothing_open) c o
    → Leaves (after_postgres positive c o).0 (after_postgres positive c o).1
unfolding after_postgres PostgresLeaves
after_postgres-Leaves true connected o h = subst (Leaves ingester) (sym h) both_used
after_postgres-Leaves false connected o h = subst (Leaves bad_latency) (sym h) both_lost
after_postgres-Leaves positive given_up o h =
    subst (λ o'. Leaves no_postgres (close_redis o')) (sym h) both_closed
after_postgres-Leaves positive connecting o h = still_waiting o h

after_redis-Leaves :
    (positive : Bool) (attempts : List PostgresAttempt) (c : Connected) (o : Opened)
    → RedisLeaves (open_redis nothing_open) c o
    → Leaves (after_redis positive attempts c o).0 (after_redis positive attempts c o).1
unfolding after_redis RedisLeaves connect_postgres
after_redis-Leaves positive attempts given_up o h = subst (Leaves no_redis) (sym h) redis_closed
after_redis-Leaves positive attempts connecting o h = still_waiting o h
after_redis-Leaves positive attempts connected o h =
    let p = postgres_loop 1 o attempts in
    after_postgres-Leaves positive p.end p.opened
      (subst (λ o'. PostgresLeaves o' p.end p.opened) h (postgres_loop-Leaves 1 o attempts))

-- However the attempts go, NewIngester has closed all that it opened when it gives up one of the two
-- databases; it has both open when it succeeds, and also when it refuses the ceiling of the latency,
-- where its error loses them; while it waits for a database, the client of Redis alone is open.
pub new_ingester-Leaves :
    (redis_attempts : List RedisAttempt) (postgres_attempts : List PostgresAttempt)
    (positive : Bool)
    → let made = new_ingester redis_attempts postgres_attempts positive in Leaves made.0 made.1
unfolding new_ingester connect_redis
new_ingester-Leaves redis_attempts postgres_attempts positive =
    let r = redis_loop 1 (open_redis nothing_open) redis_attempts in
    after_redis-Leaves positive postgres_attempts r.end r.opened
      (redis_loop-Leaves 1 (open_redis nothing_open) redis_attempts)
