-- ===== src/Cli/Tui/Live.antt =====
-- crates/cli/src/tui: the state of the interface from one input to the next.
use faultforge.Prelude.{
  ℕ, ◌-◌, ◌≤◌, ◌≡◌, Bool, true, false, List, [], ◌∷◌, length, if◌then◌else◌, arith,
}
use faultforge.Prelude.Int.{ℤ}
use faultforge.Cli.Model.{Agent}
use faultforge.Cli.Api.{ok, err}
use faultforge.Cli.Tui.{
  char, up, down, other, Ui, start, Input, pressed, ticked, answered, update, turn, clamped, input,
  event_loop,
}

-- The selection is a row of the list, or the first one where it has none; and while the model waits for
-- a fetch, one is in flight.
pub record IsLive (ui : Ui) : Type 0 where
  pub in_list : ui.model.selected ≤ length ui.model.agents - 1
  pub fetches : ui.model.loading ≡ true → 1 ≤ ui.in_flight

clamped-le : (found : List Agent) (selected : ℕ) → clamped found selected ≤ length found - 1
clamped-le [] selected = omega arith
clamped-le (a ∷ found) selected = omega arith

input-IsLive : (ui : Ui) (i : Input) (now : ℤ) → IsLive ui → IsLive (input ui i now)
unfolding input turn update
input-IsLive ui (pressed (char c) control) now v = ground arith
input-IsLive ui (pressed up control) now v = ground arith
input-IsLive ui (pressed down control) now v = ground arith
input-IsLive ui (pressed other control) now v = ground arith
input-IsLive ui ticked now v = ground arith
input-IsLive ui (answered (ok found)) now v = ground (arith, clamped-le found ui.model.selected)
input-IsLive ui (answered (err e)) now v = ground arith

either-IsLive : (b : Bool) (u w : Ui) → IsLive u → IsLive w → IsLive (if b then u else w)
either-IsLive true u w hu hw = hu
either-IsLive false u w hu hw = hw

event_loop-IsLive :
    (ui : Ui) (inputs : List (Input × ℤ)) → IsLive ui → IsLive (event_loop ui inputs)
unfolding event_loop
event_loop-IsLive ui [] v = v
event_loop-IsLive ui ((i, now) ∷ inputs) v =
    either-IsLive ui.goes_on (event_loop (input ui i now) inputs) ui
      (event_loop-IsLive (input ui i now) inputs (input-IsLive ui i now v)) v

-- Whatever keys, ticks and answers the interface takes, in whatever order: the selection is a row of
-- the list, or the first one where the list is empty; while it waits for a fetch, one is in flight;
-- and the next tick leaves a fetch in flight, so that it does not stop to refresh.
pub event_loop_refreshes :
    (inputs : List (Input × ℤ)) (later : ℤ)
    → IsLive (event_loop start inputs)
      × (1 ≤ (input (event_loop start inputs) ticked later).in_flight)
unfolding input turn update
event_loop_refreshes inputs later =
    let v =
      event_loop-IsLive start inputs
        (record { in_list = omega arith; fetches = λ h. omega arith }) in
    (v, ground arith)
