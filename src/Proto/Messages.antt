-- ===== src/Proto/Messages.antt =====
-- crates/proto/proto/faultforge.proto: messages that master and agent share.
use faultforge.Prelude.{ℕ, String, Bool, List}
use faultforge.Prelude.Int.{ℤ}

pub record RunFault : Type 0 where
  pub instance_id : String
  pub plugin_name : String
  pub plugin_version : String
  pub plugin_digest : String
  pub params_json : String
  pub duration_secs : ℕ
  pub grace_secs : ℕ

-- an `InstanceStatus`, its state as the number on the wire
pub record WireStatus : Type 0 where
  pub instance_id : String
  pub state : ℤ
  pub ts_unix_ms : ℤ
  pub reason : String
  pub plugin_digest : String

-- the payloads of an `AgentMessage`
pub data AgentPayload : Type 0 where
  register : (hostname : String) → AgentPayload
  heartbeat : AgentPayload
  fault_event : (instance_id ndjson_line : String) → AgentPayload
  instance_status : WireStatus → AgentPayload
  instance_report : List WireStatus → AgentPayload
  taint_status : Bool → (reason : String) → (ts_unix_ms : ℤ) → AgentPayload
