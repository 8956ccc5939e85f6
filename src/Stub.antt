-- ===== src/Stub.antt =====
-- services/stub/main.go: the reference matching engine.
pub mod Types
pub mod Clock
pub mod Heap
pub mod Book
pub mod Session
pub mod Snapshot
pub mod Exchange
mod Tests
