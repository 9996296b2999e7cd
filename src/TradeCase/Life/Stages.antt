-- ===== src/TradeCase/Life/Stages.antt =====
-- The stages of a case's life, over any calls of `run`.
use tradingapp.Prelude.{ℕ, ◌≤◌, ◌≡◌, refl, Bool, true, false, some, arith}
use tradingapp.Double.{Double}
use tradingapp.OrderAccount.{Gateway}
use tradingapp.TradeAccount.State.{TradeAccount}
use tradingapp.TradeInstance.State.{
  CaseType, CaseState, state_init, state_price_change, state_open_mmf, state_change_mmf, state_wait,
  state_failed, state_done, state_not_selected, Side, TradeInstance,
}
use tradingapp.TradeCase.Owned.{OwnedCase, state_of, new_case, owned_done, run_in, run_owned_case}
use tradingapp.TradeCase.Profit.{close_opposite_done}
use tradingapp.TradeCase.Life.Runs.{owned_init-Keeps, owned_reprice-Keeps, owned_wait-Keeps}

-- A state that a step sets.
abbrev pub is_started : CaseState → Bool
is_started state_price_change = true
is_started state_wait = true
is_started state_failed = true
is_started state_done = true
is_started _ = false

-- A state that a case can be in; the others are named by the program and never set.
abbrev pub is_reached : CaseState → Bool
is_reached state_init = true
is_reached s = is_started s

-- How far a case in a state is: new, at work, done, failed.
abbrev pub stage : CaseState → ℕ
stage state_price_change = 1
stage state_wait = 1
stage state_done = 2
stage state_failed = 3
stage _ = 0

-- What a call does to the state.
abbrev pub Advances : CaseState → CaseState → Type 0
Advances a b = (is_reached b ≡ true) × (stage a ≤ stage b)

module _ {F : Type 0} ⦃d : Double F⦄ where
  new_case-init :
      (type : CaseType) (side : Side) (t : TradeInstance F) (c : OwnedCase F)
      → new_case type side t ≡ some c
      → state_of c ≡ state_init
  unfolding new_case
  new_case-init type side t c e = ground arith

  owned_done-Advances :
      (c : OwnedCase F) (t : TradeInstance F)
      → state_of c ≡ state_done
      → Advances state_done (state_of (owned_done c t))
  unfolding owned_done close_opposite_done
  owned_done-Advances c t e = ground arith

module _ {F : Type 0} ⦃d : Double F⦄ (gw : Gateway F) (wake : TradeAccount F → TradeAccount F) where
  -- The cases that calls of `run` lead to. The instance of each call is any, as the market, the
  -- exchange and the other functions of the instance change it between the calls.
  pub data Runs (c : OwnedCase F) : OwnedCase F → Type 0 where
    here : Runs c c
    next :
        {q v : OwnedCase F} (t u : TradeInstance F)
        → Runs c q
        → run_owned_case gw wake q t ≡ some (v, u)
        → Runs c v

  started-Advances : (a b : CaseState) → stage a ≤ 1 → is_started b ≡ true → Advances a b
  started-Advances a b h e = ground arith

  run_in-Advances :
      (s : CaseState) (c v : OwnedCase F) (t u : TradeInstance F)
      → state_of c ≡ s
      → is_reached s ≡ true
      → run_in gw wake s c t ≡ some (v, u)
      → Advances s (state_of v)
  unfolding run_in
  run_in-Advances state_init c v t u same reached e = (
    owned_init-Keeps gw wake is_reached refl refl refl refl c v t u (ground arith) e,
    omega arith,
  )
  run_in-Advances state_price_change c v t u same reached e =
      started-Advances state_price_change (state_of v) (omega arith)
        (owned_reprice-Keeps gw wake is_started refl refl refl refl c v t u (ground arith) e)
  run_in-Advances state_wait c v t u same reached e =
      started-Advances state_wait (state_of v) (omega arith)
        (owned_wait-Keeps gw wake is_started refl refl refl refl c v t u (ground arith) e)
  run_in-Advances state_done c v t u same reached e =
      let kept : v ≡ owned_done c t = ground arith in rw kept (owned_done-Advances c t same)
  run_in-Advances state_failed c v t u same reached e =
      let kept : v ≡ c = ground arith in ground arith
  run_in-Advances state_open_mmf c v t u same reached e = ground arith
  run_in-Advances state_change_mmf c v t u same reached e = ground arith
  run_in-Advances state_not_selected c v t u same reached e = ground arith

  Runs-Advances :
      (c : OwnedCase F) {v : OwnedCase F}
      → is_reached (state_of c) ≡ true
      → Runs c v
      → Advances (state_of c) (state_of v)
  Runs-Advances c reached here = (reached, omega arith)
  Runs-Advances c reached (next {q} {v} t u before e) =
      let (known, far) = Runs-Advances c reached before in
      let (named, further) = run_in-Advances (state_of q) q v t u refl known e in
      (named, omega arith)

  -- The life of a case of any class. From its constructor on, over any calls of `run` with any
  -- instances: its state is one of INIT, PRICE_CHANGE, WAIT, DONE and FAILED, and it never goes back,
  -- from at work to new, from done to at work or new, or from failed to any other one.
  pub runs-advance :
      (type : CaseType) (side : Side) (t : TradeInstance F) (c q v : OwnedCase F)
      → new_case type side t ≡ some c
      → Runs c q
      → Runs q v
      → Advances (state_of q) (state_of v)
  runs-advance type side t c q v made before after =
      let fresh = new_case-init type side t c made in
      let (reached, _) = Runs-Advances c (ground (arith, fresh)) before in
      Runs-Advances q reached after
