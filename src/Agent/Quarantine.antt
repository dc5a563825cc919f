-- ===== src/Agent/Quarantine.antt =====
-- crates/agent/src/supervisor.rs: `handle_clear_taint`, the operator's end of a quarantine.
use Prim.Native.String.{◌++◌}
use faultforge.Prelude.{String, Option, none, some}
use faultforge.Agent.Host.{TaintRecord, TaintFile, current, clear}
use faultforge.Agent.Supervisor.{AgentMessage, taint_status_frame}

-- the record that stands for a host that stays tainted
abbrev kept : String → TaintRecord
kept why = record { reason = why; instance_id = "" }

-- The task of the removal is lost, or it ran with this error of the file system.
pub data Removal : Type 0 where
  lost : (join_err : String) → Removal
  ran : (failure : Option String) → Removal

-- the taint file after the command, and the frame that answers it
unfoldable pub handle_clear_taint : Removal → TaintFile → TaintFile × AgentMessage
handle_clear_taint (ran none) file =
    let after = clear none file in (after, taint_status_frame (current after))
handle_clear_taint (ran (some e)) file =
    (clear (some e) file, taint_status_frame (some (kept ("taint clear failed: " ++ e))))
handle_clear_taint (lost e) file =
    (file, taint_status_frame (some (kept ("taint clear task failed: " ++ e))))
