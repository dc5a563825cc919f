-- ===== src/Cli/Model.antt =====
-- crates/cli/src/api/model.rs: what the client decodes. `SystemTime` is nanoseconds since the epoch,
-- where those before it are negative.
pub mod Wire
use faultforge.Prelude.{ℕ, ◌*◌, ◌/◌, String, Bool, Option, List, is_some, if◌then◌else◌}
use faultforge.Prelude.Int.{ℤ, pos, negsuc, ltb_ℤ, i64_max}

pub record Agent : Type 0 where
  pub hostname : String
  pub name : String
  -- a `SystemTime`
  pub last_seen : ℤ
  pub tainted : Bool

-- the shape of the JSON; serde gives a missing `tainted` as false
pub record AgentWire : Type 0 where
  pub hostname : String
  pub name : String
  pub last_seen_unix_ms : ℤ
  pub tainted : Bool

-- `u64::try_from(ms).map_or(UNIX_EPOCH, …)`, from milliseconds to a `SystemTime`
abbrev pub clamp_past : ℤ → ℤ
clamp_past (pos ms) = pos (ms * 1000000)
clamp_past (negsuc _) = pos 0

-- `as_millis` of `duration_since(UNIX_EPOCH)`: whole milliseconds, and 0 before the epoch
abbrev pub as_millis : ℤ → ℤ
as_millis (pos ns) = pos (ns / 1000000)
as_millis (negsuc _) = pos 0

-- `From<AgentWire> for Agent`
unfoldable pub agent_from_wire : AgentWire → Agent
agent_from_wire w = record {
  hostname = w.hostname;
  name = w.name;
  last_seen = clamp_past w.last_seen_unix_ms;
  tainted = w.tainted;
}

-- `From<Agent> for AgentWire`
unfoldable pub wire_from_agent : Agent → AgentWire
wire_from_agent a = record {
  hostname = a.hostname;
  name = a.name;
  last_seen_unix_ms =
      if ltb_ℤ i64_max (as_millis a.last_seen) then i64_max else as_millis a.last_seen;
  tainted = a.tainted;
}

pub record Cause : Type 0 where
  pub hostname : Option String
  pub instance_id : Option String
  pub reason : String
  pub ts_unix_ms : ℤ

pub record Instance : Type 0 where
  pub instance_id : String
  pub hostname : String
  pub action_index : ℕ
  pub state : String
  pub reason : String
  pub updated_unix_ms : ℤ

pub record Experiment : Type 0 where
  pub id : String
  pub name : String
  pub state : String
  pub outcome : Option String
  pub grace_secs : ℕ
  pub started_unix_ms : ℤ
  pub deadline_unix_ms : ℤ
  pub cause : Option Cause
  pub instances : List Instance

-- `Experiment::is_terminal`
abbrev pub is_terminal : Experiment → Bool
is_terminal e = is_some e.outcome

pub record ExperimentSummary : Type 0 where
  pub id : String
  pub name : String
  pub state : String
  pub outcome : Option String
  pub started_unix_ms : ℤ
  pub instances : ℕ
