-- ===== src/TradeInstance.antt =====
-- trade/TradeInstance.{h,cpp}: one symbol traded in a long and a short account.
pub mod State
pub mod Selection
pub mod Processing
pub mod Prices
pub mod PanicClose
pub mod Choice
pub mod Coherence
pub mod Samples
mod Tests
