-- ===== src/Leaderboard.antt =====
-- services/leaderboard-ws: the service that shows the leaderboard.
pub mod Hub
pub mod Entries
mod Tests
