-- ===== src/Agent/Supervisor.antt =====
-- crates/agent/src/supervisor.rs: the shell of one instance, `run_instance`. What its world answers
-- is a `World`: the result of `setup` and of `wait_for_stop`, what each plugin invocation comes to, and
-- the results of the file operations. The telemetry is Agent.Telemetry; timestamps are left out.
pub mod Feed
pub mod Fed
pub mod Rounds
pub mod Ends
pub mod Disk
pub mod Journaled
use Prim.Native.String.{◌++◌ as concat}
use faultforge.Prelude.{
  ℕ, zero, suc, String, Bool, true, false, Option, none, some, List, [], ◌∷◌, ◌++◌, if◌then◌else◌,
  or_else,
}
use faultforge.Fault.State.{InstanceState}
use faultforge.Fault.Protocol.{PluginCommand, Disposition}
use faultforge.Agent.Machine.{
  StopCause, deadman, State, is_terminal, Event, setup_ok, setup_failed, journal_written,
  journal_write_failed, command_finished, invocation_failed, invoke_rejected, stop_requested,
  Effect, emit_status, invoke, write_journal, remove_journal, mark_tainted,
}
use faultforge.Agent.Machine.Step.{step}
use faultforge.Agent.Host.{
  JournalEntry, Journal, TaintRecord, TaintFile, write, remove_entry, current, mark,
}

-- of crates/agent/src/runner.rs
pub data InvocationOutcome : Type 0 where
  exited : Disposition → InvocationOutcome
  timed_out signalled : InvocationOutcome
  failed : String → InvocationOutcome

-- How an invocation goes: the digest gate refuses it, or its check fails, or the plugin runs while
-- stop requests come in, in this order, or its task is lost.
pub data Invocation : Type 0 where
  refused unchecked : String → Invocation
  ran : List StopCause → InvocationOutcome → Invocation
  lost : List StopCause → String → Invocation

pub record World : Type 0 where
  -- the error of `setup`
  pub setup_error : Option String
  -- the cause that `wait_for_stop` returns
  pub stop : StopCause
  -- by the number of earlier invocations
  pub invocation : ℕ → Invocation
  -- the invocation timeout, printed
  pub timeout : String
  pub write_error : Option String
  pub remove_error : Option String
  pub mark_error : Option String

pub data AgentMessage : Type 0 where
  instance_status : (instance_id : String) → InstanceState → (reason digest : String) → AgentMessage
  taint_status : Bool → (reason : String) → AgentMessage

pub record Shell : Type 0 where
  pub state : State
  pub queue : List Event
  pub journal : Journal
  pub taint : TaintFile
  pub out : List AgentMessage
  pub invocations : ℕ

unfoldable pub invocation_event : PluginCommand → InvocationOutcome → String → Event
invocation_event command (exited disposition) timeout = command_finished command disposition
invocation_event command timed_out timeout =
    invocation_failed command (concat "killed after invocation timeout (" (concat timeout ")"))
invocation_event command signalled timeout = invocation_failed command "terminated by signal"
invocation_event command (failed why) timeout = invocation_failed command why

-- each stop that comes in is put in front
push_stops : List StopCause → List Event → List Event
push_stops [] queue = queue
push_stops (cause ∷ causes) queue = push_stops causes (stop_requested cause ∷ queue)

-- `invoke_gated`: the queue with the stops, and the event of the invocation
unfoldable pub invoke_gated : String → PluginCommand → Invocation → List Event → List Event × Event
unfolding push_stops invocation_event
invoke_gated timeout command (refused why) queue = (queue, invoke_rejected command why)
invoke_gated timeout command (unchecked why) queue =
    (queue, invocation_failed command (concat "digest verification task failed: " why))
invoke_gated timeout command (ran stops outcome) queue =
    (push_stops stops queue, invocation_event command outcome timeout)
invoke_gated timeout command (lost stops why) queue =
    (push_stops stops queue, invocation_failed command (concat "invocation task failed: " why))

-- `reason.unwrap_or_default()`
unfoldable pub reason_text : Option String → String
reason_text none = ""
reason_text (some why) = why

-- `taint_status_frame`
unfoldable pub taint_status_frame : Option TaintRecord → AgentMessage
taint_status_frame none = taint_status false ""
taint_status_frame (some r) = taint_status true r.reason

journal_event : Option String → Event
journal_event none = journal_written
journal_event (some why) = journal_write_failed why

pub setup_event : Option String → Event
setup_event none = setup_ok
setup_event (some why) = setup_failed why

module _ (entry : JournalEntry) (world : World) where
  -- `apply_effect`; `mark_tainted` of the same file is its last case
  unfoldable pub apply_effect : Effect → Shell → Shell
  unfolding reason_text journal_event
  apply_effect (emit_status state why) sh = record sh {
    out =
        sh.out
        ++ instance_status entry.instance_id state (reason_text why) entry.plugin_digest ∷ [];
  }
  apply_effect (invoke command phase) sh =
      let (queue, event) =
        invoke_gated world.timeout command (world.invocation sh.invocations) sh.queue in
      record sh { queue = queue ++ event ∷ []; invocations = suc sh.invocations }
  apply_effect write_journal sh = record sh {
    journal = write world.write_error entry sh.journal;
    queue = sh.queue ++ journal_event world.write_error ∷ [];
  }
  apply_effect remove_journal sh = record sh {
    journal = remove_entry world.remove_error entry.instance_id sh.journal;
  }
  apply_effect (mark_tainted why) sh =
      let r : TaintRecord = record { reason = why; instance_id = entry.instance_id } in
      let file = mark world.mark_error r sh.taint in
      record sh {
        taint = file;
        out = sh.out ++ taint_status_frame (or_else (current file) (some r)) ∷ [];
      }

  unfoldable pub apply_effects : List Effect → Shell → Shell
  apply_effects [] sh = sh
  apply_effects (e ∷ es) sh = apply_effects es (apply_effect e sh)

  -- the event that the loop takes next, and the queue behind it; `none` breaks the loop
  unfoldable pub next_event : State → List Event → Option (Event × List Event)
  next_event s (e ∷ queue) = some (e, queue)
  next_event State.active [] = some (stop_requested world.stop, [])
  next_event s [] = if is_terminal s then none else some (stop_requested deadman, [])

  unfoldable pub advance : Event → List Event → Shell → Shell
  advance e queue sh =
      let (s', effects) = step sh.state e in
      apply_effects effects (record sh { state = s'; queue = queue })

  -- the `loop`; `none` means that the fuel did not last
  unfoldable pub run_loop : ℕ → Shell → Option Shell
  run_loop zero sh = none
  run_loop (suc fuel) sh = elim (next_event sh.state sh.queue) [
    | none ↦ some sh
    | some (e, queue) ↦ run_loop fuel (advance e queue sh)
  ]

  -- the shell after so many rounds of the loop, where the agent may crash
  unfoldable pub rounds : ℕ → Shell → Shell
  rounds zero sh = sh
  rounds (suc n) sh = elim (next_event sh.state sh.queue) [
    | none ↦ sh
    | some (e, queue) ↦ rounds n (advance e queue sh)
  ]

  -- the shell at the head of the loop
  unfoldable pub start : Journal → TaintFile → Shell
  unfolding setup_event
  start journal taint = record {
    state = State.pending;
    queue = setup_event world.setup_error ∷ [];
    journal = journal;
    taint = taint;
    out = instance_status entry.instance_id InstanceState.pending "" entry.plugin_digest ∷ [];
    invocations = 0;
  }
