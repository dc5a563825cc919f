-- ===== src/Agent/Telemetry.antt =====
-- crates/agent/src/supervisor.rs: the telemetry of one invocation, as frames for the master. `Log` stands
-- for the clock with humantime, by the number of lines before, and for serde_json.
pub mod Verbatim
use Prim.Native.String.{◌++◌ as cat}
use faultforge.Prelude.{
  ℕ, suc, String, Bool, Option, none, some, List, [], ◌∷◌, ◌++◌, length, if◌then◌else◌,
}
use faultforge.Fault.Events.{PluginEvent, Level, log_event}
use faultforge.Proto.Messages.{AgentPayload, fault_event}
use faultforge.Agent.Runner.{StdoutLine, event, malformed, Ran, Lines}

pub record Log : Type 0 where
  pub stamp : ℕ → String
  pub encode : PluginEvent → Option String

-- `fault_event_frame`
abbrev pub fault_event_frame : String → String → AgentPayload
fault_event_frame id line = fault_event id line

-- the arms of `agent_log_frame`
encoded_frame : String → Option String → Option AgentPayload
encoded_frame id none = none
encoded_frame id (some line) = some (fault_event_frame id line)

abbrev push_frame : Option AgentPayload → List AgentPayload → List AgentPayload
push_frame none frames = frames
push_frame (some f) frames = f ∷ frames

module _ (text : Lines) (logs : Log) (id : String) where
  unfoldable pub agent_log_frame : ℕ → String → Option AgentPayload
  unfolding encoded_frame
  agent_log_frame n msg =
      encoded_frame id (logs.encode (log_event (logs.stamp n) id Level.error msg))

  unfoldable pub forward_lines : ℕ → List StdoutLine → List AgentPayload
  forward_lines n [] = []
  forward_lines n (event raw e ∷ ls) = fault_event_frame id raw ∷ forward_lines (suc n) ls
  forward_lines n (malformed raw ∷ ls) =
      push_frame (agent_log_frame n (cat "malformed plugin output: " raw))
        (forward_lines (suc n) ls)

  unfoldable pub forward_stderr : ℕ → List String → List AgentPayload
  forward_stderr n [] = []
  forward_stderr n (l ∷ ls) =
      let rest = forward_stderr (suc n) ls in
      if text.is_blank l then rest else push_frame (agent_log_frame n (cat "stderr: " l)) rest

  -- `forward_telemetry`, in the order of its sends
  unfoldable pub forward_telemetry : Ran → List AgentPayload
  forward_telemetry ran =
      forward_lines 0 ran.lines ++ forward_stderr (length ran.lines) (text.lines_of ran.stderr)

  -- the frames of `replay_invoke`, which its loops collect
  abbrev pub replay_telemetry : Ran → List AgentPayload
  replay_telemetry ran =
      forward_lines 0 ran.lines ++ forward_stderr (length ran.lines) (text.lines_of ran.stderr)
