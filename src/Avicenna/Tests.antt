-- ===== src/Avicenna/Tests.antt =====
-- The threads of estimates over whole price units and a library that counts its calls.
use tradingapp.Prelude.{
  false, [], ◌∷◌, ℕ, suc, ◌≡◌, refl, true, none, some, leb, arith, if◌then◌else◌,
}
use tradingapp.Prelude.Int.{ℤ, pos, quot, ◌+ℤ◌, ◌-ℤ◌, ◌*ℤ◌}
use tradingapp.Double.Units.{int_double, div_ℤ}
use tradingapp.Symbol.{reset_interval}
use tradingapp.Symbol.Samples.{new_symbol}
use tradingapp.Avicenna.{
  Library, Connection, Watched, new_connection, calculate, warm_up, new_estimate, visit,
}
use tradingapp.Avicenna.WarmUp.{fed, estimates, direct, new_estimate-ends}
use tradingapp.Avicenna.Published.{visit-publishes}

-- The library has no estimate before its third call.
abbrev counting : Library ℤ ℕ
counting = record {
  calculate_super_plus = λ price calls. suc calls;
  export_value4 = λ calls. if leb 3 calls then pos 101 else pos 0;
}

new_estimate-ends_example :
    (u : Connection ℤ ℕ) × (new_estimate counting 3 (pos 100) (new_connection 0)
      ≡ some (u.price_estimate, u))
    × (u.startup ≡ false)
    × (estimates counting 0 (pos 105 ∷ pos 0 ∷ pos 99 ∷ []) u
        ≡ some (direct counting (pos 105 ∷ pos 0 ∷ pos 99 ∷ []) u))
unfolding fed calculate div_ℤ quot ◌+ℤ◌ ◌-ℤ◌ ◌*ℤ◌
new_estimate-ends_example =
    new_estimate-ends counting 3 3 (pos 100) (pos 105 ∷ pos 0 ∷ pos 99 ∷ []) (new_connection 0) refl
      (omega arith) refl

abbrev watched : Watched ℤ ℕ
watched = record {
  symbol = record new_symbol { close_price = pos 100 };
  avicenna1 = new_connection 0;
  avicenna2 = new_connection 0;
}

abbrev visited : Watched ℤ ℕ
visited = elim (visit counting 5 1 watched) [ none ↦ watched | some u ↦ u ]

visit-publishes_example : visited.symbol.start_interval ≡ true
unfolding visit new_estimate warm_up calculate reset_interval div_ℤ quot ◌+ℤ◌ ◌-ℤ◌ ◌*ℤ◌
visit-publishes_example = (visit-publishes counting 5 1 watched visited refl refl refl).2
