-- ===== src/BotOrchestrator.antt =====
-- services/bot-orchestrator: the service that runs a test against a sandbox.
pub mod Test
pub mod Server
pub mod Job
mod Tests
