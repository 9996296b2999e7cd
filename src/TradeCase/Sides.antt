-- ===== src/TradeCase/Sides.antt =====
-- What the steps of the trade cases leave alone: the choice of the instance's current account, the
-- trigger of its last change, and the side on which the case works.
pub mod Builders
pub mod Closers
pub mod Senders
pub mod Runs
use tradingapp.Prelude.{◌≡◌}
use tradingapp.TradeInstance.State.{TradeInstance}

-- The same trigger of the last change, and the same choice of the accounts.
abbrev pub KeepsSide : {F : Type 0} → TradeInstance F → TradeInstance F → Type 0
KeepsSide t u = (u.prev_trigger_state ≡ t.prev_trigger_state) × (u.current ≡ t.current)
