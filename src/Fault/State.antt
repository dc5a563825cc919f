-- ===== src/Fault/State.antt =====
-- crates/fault/src/state.rs: the lifecycle states of a fault instance.
use faultforge.Prelude.{Bool, true, false}

pub data InstanceState : Type 0 where
  pending preflight injecting active recovering done aborted error : InstanceState

pub InstanceState-discrete : Discrete InstanceState
InstanceState-discrete = hlevel

-- `InstanceState::plugin_emittable`
unfoldable pub plugin_emittable : InstanceState → Bool
plugin_emittable InstanceState.pending = false
plugin_emittable InstanceState.aborted = false
plugin_emittable InstanceState.error = false
plugin_emittable _ = true

-- the derived `PartialEq` of `InstanceState`
abbrev pub state_eq : InstanceState → InstanceState → Bool
state_eq pending pending = true
state_eq preflight preflight = true
state_eq injecting injecting = true
state_eq active active = true
state_eq recovering recovering = true
state_eq done done = true
state_eq aborted aborted = true
state_eq error error = true
state_eq _ _ = false
