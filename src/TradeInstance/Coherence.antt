-- ===== src/TradeInstance/Coherence.antt =====
-- What holds of an instance and its case between any two events.
use tradingapp.Prelude.{Bool, Option}
use tradingapp.Double.{Double}
use tradingapp.TradeAccount.State.{TradeAccount}
use tradingapp.TradeInstance.State.{TradeInstance}
use tradingapp.TradeInstance.Selection.{Thread}
use tradingapp.TradeInstance.Choice.{IsCoherent, Ends}

module _ {F : Type 0} where
  -- The thread, whether it goes on or not, is coherent.
  abbrev pub Leaves : Option (Thread F × Bool) → Type 0
  Leaves r = Ends (λ (x : Thread F × Bool). IsCoherent x.0) r
