-- ===== src/TradeInstance/Choice.antt =====
-- What the choice of a case leaves: the current account is the one of the last trigger, and the case
-- is one that can be selected and works in that account.
use tradingapp.Prelude.{
  ◌≤◌, ◌≡◌, ◌≢◌, refl, Bool, true, false, not, ◌&&◌, Option, none, some, arith, inl, inr,
  Option-cases, sym, ap, ◌∙◌, if◌then◌else◌,
}
use tradingapp.Prelude.Int.{ℤ}
use tradingapp.Double.{Double}
use tradingapp.OrderAccount.{Gateway}
use tradingapp.TradeAccount.State.{TradeAccount, get_position}
use tradingapp.TradeInstance.State.{
  TriggerState, trigger_init, trigger_positive, trigger_negative, CaseType, case_none, case_4,
  case_9, case_10, case_hedge_current, panic_close, soft_close, Side, long_side, short_side,
  TradeInstance, account_of, opposite_of,
}
use tradingapp.TradeCase.Owned.{OwnedCase, type_of, base_side, new_case, owned_end}
use tradingapp.TradeCase.Sides.{KeepsSide}
use tradingapp.TradeCase.Sides.Runs.{KeepsCase, owned_end-KeepsSide}
use tradingapp.TradeInstance.Selection.{
  Thread, create, new_close, destroy, end_case, owning, replace_case, select_type, after_choice,
  case_selection, turned, moved, is_same_trigger, is_init, is_none, trigger_selection, next_trigger,
  self_destruct, close_case, special_cases,
}

-- The account that a trigger makes the current one.
abbrev pub side_of : TriggerState → Option Side
side_of trigger_init = none
side_of trigger_positive = some long_side
side_of trigger_negative = some short_side

abbrev pub is_selectable : CaseType → Bool
is_selectable case_4 = true
is_selectable case_9 = true
is_selectable case_10 = true
is_selectable case_hedge_current = true
is_selectable panic_close = true
is_selectable soft_close = true
is_selectable _ = false

-- A type that is selected, where `NONE` selects no case.
abbrev pub is_choice : CaseType → Bool
is_choice case_none = true
is_choice type = is_selectable type

-- A side, if there is one, is that of the current account.
abbrev pub IsCurrent : Option Side → Option Side → Type 0
IsCurrent none current = 0 ≤ 0
IsCurrent (some side) current = current ≡ some side

-- What a call that has come to an end leaves.
abbrev pub Ends : {A : Type 0} → (A → Type 0) → Option A → Type 0
Ends P none = 0 ≤ 0
Ends P (some a) = P a

module _ {F : Type 0} where
  -- A case can be selected, and works in the current account.
  abbrev pub Fits : Option (OwnedCase F) → Option Side → Type 0
  Fits none current = 0 ≤ 0
  Fits (some c) current = (is_selectable (type_of c) ≡ true) × IsCurrent (base_side c) current

  abbrev pub IsOriented : TradeInstance F → Type 0
  IsOriented t = t.current ≡ side_of t.prev_trigger_state

  abbrev pub IsCoherent : Thread F → Type 0
  IsCoherent th = IsOriented th.instance × Fits th.owned th.instance.current

  either-Ends :
      (b : Bool) (x y : Option (Thread F))
      → (b ≡ true → Ends IsCoherent x)
      → (b ≡ false → Ends IsCoherent y)
      → Ends IsCoherent (if b then x else y)
  either-Ends true x y then_ends else_ends = then_ends refl
  either-Ends false x y then_ends else_ends = else_ends refl

  pub IsOriented-kept : (t u : TradeInstance F) → KeepsSide t u → IsOriented t → IsOriented u
  IsOriented-kept t u (trigger, current) o = current ∙ o ∙ ap side_of (sym trigger)

  pub Fits-kept :
      (c v : OwnedCase F) (t u : TradeInstance F)
      → KeepsCase c v t u
      → Fits (some c) t.current
      → Fits (some v) u.current
  Fits-kept c v t u ((_, current), side, type) f = rw (current, side, type) f

module _ {F : Type 0} ⦃d : Double F⦄ where
  pub create-Fits :
      (type : CaseType) (t : TradeInstance F)
      → is_choice type ≡ true
      → Fits (create type t) t.current
  unfolding create new_case new_close
  create-Fits type t h = ground arith

  select_type-chosen :
      (curr_pos oppo_pos : ℤ) (t : TradeInstance F)
      → is_choice (select_type curr_pos oppo_pos t) ≡ true
  unfolding select_type
  select_type-chosen curr_pos oppo_pos t = ground arith

  after_choice-KeepsSide :
      (type : CaseType) (t : TradeInstance F) → KeepsSide t (after_choice type t)
  after_choice-KeepsSide type t = ground arith

module _ {F : Type 0} ⦃d : Double F⦄ (gw : Gateway F) (wake : TradeAccount F → TradeAccount F) where
  destroy-KeepsSide : (t u : TradeInstance F) → destroy gw wake t ≡ some u → KeepsSide t u
  unfolding destroy
  destroy-KeepsSide t u e = ground arith

  end_case-KeepsSide :
      (c : OwnedCase F) (t u : TradeInstance F) → end_case gw wake c t ≡ some u → KeepsSide t u
  unfolding end_case
  end_case-KeepsSide c t u e = elim (Option-cases (owned_end c t)) [
    | inl lost ↦ ground arith
    | inr (v, found) ↦
        let first = owned_end-KeepsSide gw wake c t v found in
        let last = destroy-KeepsSide v u in ground arith
  ]

  pub replace_case-IsCoherent :
      (new : Option (OwnedCase F)) (th : Thread F)
      → Fits new th.instance.current
      → IsOriented th.instance
      → Ends IsCoherent (replace_case gw wake new th)
  unfolding replace_case
  replace_case-IsCoherent new th fits oriented = replaced th.owned
    where
      owning-IsCoherent :
          (r : Option (TradeInstance F))
          → ((t : TradeInstance F) → r ≡ some t → KeepsSide th.instance t)
          → Ends IsCoherent (owning gw wake new r)
      owning-IsCoherent none h = omega arith
      owning-IsCoherent (some t) h =
          let kept = h t refl in (IsOriented-kept th.instance t kept oriented, rw (kept.1) fits)

      replaced :
          (owned : Option (OwnedCase F))
          → Ends IsCoherent (elim owned [
            | none ↦ some (record th { owned = new })
            | some old ↦ owning gw wake new (end_case gw wake old th.instance)
          ])
      replaced none = (oriented, fits)
      replaced (some old) = owning-IsCoherent _ (λ t e. end_case-KeepsSide old th.instance t e)

  -- Choosing a case for an instance whose current account is known.
  chosen-IsCoherent :
      (type : CaseType) (th : Thread F)
      → is_choice type ≡ true
      → IsOriented th.instance
      → let u = after_choice type th.instance in
        Ends IsCoherent (replace_case gw wake (create type u) (record th { instance = u }))
  chosen-IsCoherent type th choice oriented =
      let u = after_choice type th.instance in
      let kept = after_choice-KeepsSide type th.instance in
      replace_case-IsCoherent (create type u) (record th { instance = u })
        (create-Fits type u choice) (IsOriented-kept th.instance u kept oriented)

  -- The choice does not rest on the case that was owned, once there is a current account.
  case_selection-IsCoherent :
      (th : Thread F)
      → IsOriented th.instance
      → (th.instance.current ≡ none → Fits th.owned none)
      → Ends IsCoherent (case_selection gw wake th)
  unfolding case_selection
  case_selection-IsCoherent th oriented fits = selected th.instance.current refl
    where
      selected :
          (current : Option Side)
          → th.instance.current ≡ current
          → Ends IsCoherent (elim current [
            | none ↦ some th
            | some side ↦
                let t = th.instance in
                let type =
                  select_type
                    (get_position (account_of side t))
                    (get_position (opposite_of side t))
                    t in
                let u = after_choice type t in
                replace_case gw wake (create type u) (record th { instance = u })
          ])
      selected none e = (oriented, rw e (fits e))
      selected (some side) e =
          let t = th.instance in
          let curr_pos = get_position (account_of side t) in
          let oppo_pos = get_position (opposite_of side t) in
          chosen-IsCoherent (select_type curr_pos oppo_pos t) th
            (select_type-chosen curr_pos oppo_pos t) oriented

  moved-KeepsSide : (trigger : TriggerState) (t : TradeInstance F) → KeepsSide t (moved trigger t)
  unfolding moved
  moved-KeepsSide trigger t = (refl, refl)

  turned-IsOriented :
      (trigger : TriggerState) (t : TradeInstance F)
      → is_init trigger ≡ false
      → let u = turned trigger t in
        IsOriented u × (u.current ≡ side_of trigger) × (side_of trigger ≢ none)
  unfolding turned is_init
  turned-IsOriented trigger t h = ground arith

  pub trigger_selection-IsCoherent :
      (th : Thread F) → IsCoherent th → Ends IsCoherent (trigger_selection gw wake th)
  unfolding trigger_selection
  trigger_selection-IsCoherent th (oriented, fits) =
      let trigger = next_trigger th.instance in
      let u = moved trigger th.instance in
      let kept = moved-KeepsSide trigger th.instance in
      either-Ends (not (is_same_trigger u.prev_trigger_state trigger) && not (is_init trigger)) _ _
        (λ e.
          let (turned_oriented, side, known) = turned-IsOriented trigger u (ground (arith, e)) in
          case_selection-IsCoherent (record th { instance = turned trigger u }) turned_oriented
            (λ gone. absurd (known (sym side ∙ gone))))
        (λ _. (IsOriented-kept th.instance u kept oriented, rw (kept.1) fits))

  close_case-IsCoherent :
      (asked : Bool) (type : CaseType) (t : TradeInstance F) (th : Thread F)
      → is_choice type ≡ true
      → KeepsSide th.instance t
      → IsCoherent th
      → Ends IsCoherent (close_case gw wake asked type t th)
  close_case-IsCoherent false type t th choice kept coherent = coherent
  close_case-IsCoherent true type t th choice kept (oriented, fits) =
      replace_case-IsCoherent (create type t) (record th { instance = t })
        (create-Fits type t choice) (IsOriented-kept th.instance t kept oriented)

  self_destruct-KeepsSide : (t : TradeInstance F) → KeepsSide t (self_destruct t)
  unfolding self_destruct
  self_destruct-KeepsSide t = ground arith

  pub special_cases-IsCoherent :
      (th : Thread F) → IsCoherent th → Ends IsCoherent (special_cases gw wake th).0
  unfolding special_cases
  special_cases-IsCoherent start (oriented, fits) =
      let t = self_destruct start.instance in
      let th : Thread F = record start { instance = t } in
      let kept = self_destruct-KeepsSide start.instance in
      let whole : IsCoherent th =
        (IsOriented-kept start.instance t kept oriented, rw (kept.1) fits) in
      special _ _ _ _ t.is_panic_close t.is_soft_close (is_none start.owned)
        (close_case-IsCoherent t.panic_close_init panic_close
          (record t { panic_close_init = false }) th refl (refl, refl) whole)
        (close_case-IsCoherent t.soft_close_init soft_close (record t { soft_close_init = false })
          th refl (refl, refl) whole)
        (case_selection-IsCoherent th whole.0 (λ none_yet. rw none_yet at (whole.1))) whole
    where
      special :
          (x y z w : Option (Thread F)) (a b c : Bool)
          → Ends IsCoherent x
          → Ends IsCoherent y
          → Ends IsCoherent z
          → Ends IsCoherent w
          → Ends IsCoherent
              (if◌then◌else◌ {A = Option (Thread F) × Bool} a
                (x, true)
                (if b then (y, true) else if c then (z, false) else (w, false))).0
      special x y z w true b c p q r s = p
      special x y z w false true c p q r s = q
      special x y z w false false true p q r s = r
      special x y z w false false false p q r s = s
