-- ===== src/BotRunner.antt =====
-- services/bot-runner: the sequences of orders and the bots that send them.
pub mod Sequence
pub mod Correctness
pub mod Bot
pub mod Main
mod Tests
