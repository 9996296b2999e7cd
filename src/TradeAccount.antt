-- ===== src/TradeAccount.antt =====
-- trade/AbstractTradeAccount.{h,cpp}, LongTradeAccount.cpp and ShortTradeAccount.cpp: the orders and
-- the position of one symbol in one account.
pub mod State
pub mod Requests
pub mod Changes
pub mod Fills
pub mod Pending
pub mod Positions
pub mod Tranches
pub mod Refusals
pub mod Waiting
pub mod LiveCount
pub mod Queue
pub mod Cancelling
pub mod Samples
mod Tests
