-- ===== src/Fault/Events.antt =====
-- crates/fault/src/protocol.rs: the input of a plugin, and the events of its standard output.
use faultforge.Prelude.{String}
use faultforge.Prelude.Int.{ℤ}
use faultforge.Fault.State.{InstanceState}
use faultforge.Fault.Protocol.{Phase}
use faultforge.Fault.Params.{Params}

pub record PluginInput : Type 0 where
  pub instance_id : String
  pub params : Params
  pub deadline_unix : ℤ
  pub phase : Phase

pub data Level : Type 0 where
  info warn error : Level

pub data EventBody : Type 0 where
  status_body : InstanceState → EventBody
  log_body : Level → (msg : String) → EventBody

pub record PluginEvent : Type 0 where
  pub ts : String
  pub instance_id : String
  pub body : EventBody

-- `PluginEvent::status`
abbrev pub status_event : String → String → InstanceState → PluginEvent
status_event ts id state = record { ts = ts; instance_id = id; body = status_body state }

-- `PluginEvent::log`
abbrev pub log_event : String → String → Level → String → PluginEvent
log_event ts id level msg = record { ts = ts; instance_id = id; body = log_body level msg }
