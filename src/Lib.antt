-- ===== src/Lib.antt =====
-- The services of a trading-platform contest, verified: a reference matching engine (the stub), the
-- services that build, deploy and load-test submissions of it, and those that score and show them.
--
-- How the parts interact. services/submission-api takes a submission and publishes
-- submission.created. services/build-service compiles it in a pod and publishes build.complete or
-- build.failed. services/sandbox-orchestrator runs the binary in a pod and publishes sandbox.ready.
-- services/bot-orchestrator then starts a job of services/bot-runner, whose bots trade with the
-- submission over a WebSocket and check its answers, and whose metrics services/telemetry-ingester
-- stores. services/leaderboard-ws shows the scores. services/stub is the engine that a submission is
-- to be like. Each service is a module here, and the messages between them are values.
--
-- - Prelude: the shared names. Numbers are native; Prelude/Int has the signed integers that the
--   program compares, Prelude/Assoc has Go's map[string]V, Prelude/Decimal the numbers as text and
--   Prelude/Texts strings.Split, Join and TrimSpace. Environment: envStr, envInt and the brokers of the
--   main functions. Kubernetes: the fields of the objects that the services create.
-- - Stub (services/stub/main.go). Types: the messages and Order. Clock: `now`, and Clock/Race its
--   compare-and-swap loop between goroutines. Heap: container/heap on bidHeap and askHeap. Book:
--   Orderbook with match, rest, remove and cancelSession over one memory of orders that the heaps
--   and the map share. Session: handleOrder, handleCancel and the loop of streamHandler; a list of
--   events is the order in which the sessions take the mutex. Snapshot: orderbookHandler. Exchange: an
--   abstract exchange, a map from ids to resting orders with a relation for what an event may do, to
--   which the book and the sessions are compared.
-- - BotRunner (services/bot-runner). Sequence: sequence.go. Correctness: Run and runSequence of
--   correctness_bot.go, and Correctness/AgainstStub a run of it against the modelled stub. Bot: the
--   book-keeping of bot.go and metrics.go, Bot/Writer its writer's loop, Bot/OrderId the ids,
--   Bot/Reconnect its loop over the connections, and Bot/AgainstStub what it hears from the
--   modelled stub. Main: the settings of main.go, and Main/FromJob what they are in a job of the
--   bot-orchestrator.
-- - BuildService (services/build-service). Logs: limitWriter and the reading of a log in builder.go.
--   Build: Build in builder.go and handleRecord in consumer.go. Pod: createBuildPod. Truncate: truncate
--   in publisher.go.
-- - Sandbox (services/sandbox-orchestrator): Deploy in orchestrator.go, handleRecord in consumer.go.
--   Sandbox/Pod: createSandboxPod.
-- - BotOrchestrator (services/bot-orchestrator). Test: Handle and runTest in orchestrator.go. Server:
--   activeTests in main.go. Job: the configuration of main.go and the job of runTest.
-- - Ingester (services/telemetry-ingester/ingester.go): Handle, flush and writeBatch.
--   Score: computeScore. Leaderboard: updateLeaderboard, and the leaderboard-ws request on its store.
--   Connect: the connections of NewIngester. Consumer: Run in consumer.go with these.
-- - SubmissionApi (services/submission-api/handler.go): handleSubmitInit and handleConfirm.
-- - Leaderboard (services/leaderboard-ws). Hub: hub.go. Entries: leaderboardHandler in main.go and
--   buildSnapshot in hub.go.
--
-- Conventions. What is not in the repository is an argument: Kubernetes, Kafka, Redis, S3 and the
-- network are records that say how each call ends, and the histograms are a record of operations. A
-- mutex makes a critical section one step, and an interleaving is a list of steps. Prices of the stub
-- are integers, as every finite float64 is one in units of 2^-1074; the bots' prices are hundredths.
-- The floats of the score are an argument, a record of operations with the laws that IEEE numbers have.
--
-- Fuel. `up` halves an index and `down` raises it below the length, so the index and the length are
-- enough. A round of `match` lowers what remains of the incoming order, so the remaining quantity and
-- the length of the other side are enough. The trimming of a log drops a byte each time.
--
-- Not modelled: HTTP and JSON, which are encodings by other packages; the Kafka, Redis, S3 and Postgres
-- clients and the publishers around them; and the main functions but for their settings.
pub mod Kubernetes
pub mod Environment
pub mod Prelude
pub mod Stub
pub mod BotRunner
pub mod BuildService
pub mod Sandbox
pub mod BotOrchestrator
pub mod Ingester
pub mod SubmissionApi
pub mod Leaderboard
