-- ===== src/Cli/Tui.antt =====
-- crates/cli/src/tui: the model and its update (model.rs and update.rs), and the event loop (mod.rs) with
-- the fetches that it started. The drawing is left out.
pub mod Live
use Prim.Native.Nat.{min}
use faultforge.Prelude.{
  ℕ, zero, suc, ◌+◌, ◌-◌, ltb, ◌==◌, ◌&&◌, ◌||◌, String, Bool, true, false, Option, none, some,
  List, [], ◌∷◌, length, if◌then◌else◌,
}
use faultforge.Prelude.Int.{ℤ}
use faultforge.Cli.Model.{Agent}
use faultforge.Cli.Api.{ApiError, Result, ok, err}
use faultforge.Cli.Script.{show_error}

-- `Screen` has one value and is left out.
pub record Model : Type 0 where
  pub agents : List Agent
  pub selected : ℕ
  pub loading : Bool
  pub last_error : Option String
  pub last_fetch : Option ℤ

-- `Model::new`
abbrev pub new : Model
new = record { agents = []; selected = 0; loading = false; last_error = none; last_fetch = none }

-- crossterm's key codes, as far as the program tells them apart
pub data KeyCode : Type 0 where
  char : (code : ℕ) → KeyCode
  up down other : KeyCode

pub data Msg : Type 0 where
  key : KeyCode → (control : Bool) → Msg
  tick : Msg
  agents_loaded : Result (List Agent) → Msg

pub data Effect : Type 0 where
  fetch_agents quit : Effect

-- the three groups of keys, where a key that is none of them is `other`
unfoldable pub handle_key : Model → KeyCode → Bool → Model × Option Effect
handle_key m (char c) control =
    if c == b'q' || c == b'c' && control
    then (m, some quit)
    else if c == b'r'
    then (record m { loading = true }, some fetch_agents)
    else (m, none)
handle_key m down control =
    if ltb 0 (length m.agents)
    then (record m { selected = min (m.selected + 1) (length m.agents - 1) }, none)
    else (m, none)
handle_key m up control =
    if ltb 0 m.selected then (record m { selected = m.selected - 1 }, none) else (m, none)
handle_key m other control = (m, none)

-- the clamp of the selection to the new list
abbrev clamped : List Agent → ℕ → ℕ
clamped [] selected = 0
clamped (a ∷ agents) selected = min selected (length (a ∷ agents) - 1)

unfoldable pub update : Model → Msg → ℤ → Model × Option Effect
unfolding handle_key
update m (key code control) now = handle_key m code control
update m tick now =
    if m.loading then (m, none) else (record m { loading = true }, some fetch_agents)
update m (agents_loaded (ok found)) now = (
  record {
    agents = found;
    selected = clamped found m.selected;
    loading = false;
    last_error = none;
    last_fetch = some now;
  },
  none,
)
update m (agents_loaded (err e)) now =
    (record m { loading = false; last_error = some (show_error e) }, none)

-- The state of `event_loop`: the model, the fetches that have not answered, and whether it goes on.
pub record Ui : Type 0 where
  pub model : Model
  pub in_flight : ℕ
  pub goes_on : Bool

-- before the loop, with the first fetch
abbrev pub start : Ui
start = record { model = record new { loading = true }; in_flight = 1; goes_on = true }

-- What the `select!` gives: a key or a tick, or the answer of a fetch, where one is in flight.
pub data Input : Type 0 where
  pressed : KeyCode → (control : Bool) → Input
  ticked : Input
  answered : Result (List Agent) → Input

after_effect : Option Effect → Ui → Ui
after_effect none ui = ui
after_effect (some quit) ui = record ui { goes_on = false }
after_effect (some fetch_agents) ui = record ui { in_flight = ui.in_flight + 1 }

-- one message through `update`, and its effect
unfoldable pub turn : Ui → Msg → ℤ → Ui
unfolding after_effect
turn ui msg now =
    let (m, effect) = update ui.model msg now in after_effect effect (record ui { model = m })

answer : Ui → ℕ → Result (List Agent) → ℤ → Ui
unfolding turn
answer ui zero result now = ui
answer ui (suc n) result now = turn (record ui { in_flight = n }) (agents_loaded result) now

unfoldable pub input : Ui → Input → ℤ → Ui
unfolding answer
input ui (pressed code control) now = turn ui (key code control) now
input ui ticked now = turn ui tick now
input ui (answered result) now = answer ui ui.in_flight result now

-- `event_loop`, until a key ends it
unfoldable pub event_loop : Ui → List (Input × ℤ) → Ui
event_loop ui [] = ui
event_loop ui ((i, now) ∷ inputs) =
    let rest = event_loop (input ui i now) inputs in if ui.goes_on then rest else ui
