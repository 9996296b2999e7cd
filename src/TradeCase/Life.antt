-- ===== src/TradeCase/Life.antt =====
-- The states of the cases: every step of a class keeps what holds of the four states that steps set.
pub mod Builders
pub mod Closers
pub mod Senders
pub mod Runs
pub mod Stages
mod Tests
