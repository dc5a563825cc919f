-- ===== src/Agent/Machine.antt =====
-- crates/agent/src/machine.rs: the types of the per-instance state machine. `Step` is its transition
-- function; the theorems stand in the modules beside it.
pub mod Step
pub mod Valid
pub mod Status
pub mod Safety
pub mod Progress
pub mod Clock
use faultforge.Prelude.{String, Bool, true, false, Option, some, List, [], ◌∷◌}
use faultforge.Fault.State.{InstanceState}
use faultforge.Fault.Protocol.{PluginCommand, Phase, Disposition}

pub data StopCause : Type 0 where
  duration_elapsed operator_abort master_lost deadman : StopCause

pub data Outcome : Type 0 where
  done aborted error : Outcome

-- `StopCause::reason`
unfoldable pub reason : StopCause → String
reason duration_elapsed = "duration elapsed"
reason operator_abort = "operator abort"
reason master_lost = "master unreachable beyond threshold; self-abort"
reason deadman = "dead-man deadline reached"

-- `StopCause::outcome`
abbrev pub outcome : StopCause → Outcome
outcome duration_elapsed = Outcome.done
outcome operator_abort = Outcome.aborted
outcome master_lost = Outcome.aborted
outcome deadman = Outcome.error

-- `StopCause::recovery_steps`: the first command, and those queued behind it
abbrev pub recovery_steps : StopCause → PluginCommand × List PluginCommand
recovery_steps duration_elapsed = (PluginCommand.cleanup, [])
recovery_steps _ = (PluginCommand.abort, PluginCommand.cleanup ∷ [])

-- `Outcome::terminal_state`
abbrev pub terminal_state : Outcome → InstanceState
terminal_state Outcome.done = InstanceState.done
terminal_state Outcome.aborted = InstanceState.aborted
terminal_state Outcome.error = InstanceState.error

pub record Recovery : Type 0 where
  pub current : PluginCommand
  pub remaining : List PluginCommand
  pub outcome : Outcome
  pub retried : Bool
  pub reason : Option String

-- The `stop` of a pre-inject phase is a stop request that is honoured at the phase's end.
pub data State : Type 0 where
  pending : State
  preflight_install preflight_runtime writing_journal injecting : Option StopCause → State
  active : State
  recovering : Recovery → State
  done aborted error : State

-- `State::instance_state`
abbrev pub instance_state : State → InstanceState
instance_state State.pending = InstanceState.pending
instance_state (preflight_install _) = InstanceState.preflight
instance_state (preflight_runtime _) = InstanceState.preflight
instance_state (writing_journal _) = InstanceState.preflight
instance_state (injecting _) = InstanceState.injecting
instance_state State.active = InstanceState.active
instance_state (recovering _) = InstanceState.recovering
instance_state State.done = InstanceState.done
instance_state State.aborted = InstanceState.aborted
instance_state State.error = InstanceState.error

-- `State::is_terminal`
abbrev pub is_terminal : State → Bool
is_terminal State.done = true
is_terminal State.aborted = true
is_terminal State.error = true
is_terminal _ = false

pub data Event : Type 0 where
  setup_ok journal_written : Event
  setup_failed journal_write_failed : String → Event
  command_finished : PluginCommand → Disposition → Event
  invocation_failed invoke_rejected : PluginCommand → String → Event
  stop_requested : StopCause → Event

pub data Effect : Type 0 where
  emit_status : InstanceState → Option String → Effect
  invoke : PluginCommand → Phase → Effect
  write_journal remove_journal : Effect
  mark_tainted : String → Effect

-- `State::replay_recovery`
unfoldable pub replay_recovery : Outcome → String → State × List Effect
replay_recovery o why = (
  recovering (record {
    current = PluginCommand.abort;
    remaining = PluginCommand.cleanup ∷ [];
    outcome = o;
    retried = false;
    reason = some why;
  }),
  emit_status InstanceState.recovering (some why) ∷ invoke PluginCommand.abort Phase.runtime ∷ [],
)
