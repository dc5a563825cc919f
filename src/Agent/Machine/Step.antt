-- ===== src/Agent/Machine/Step.antt =====
-- crates/agent/src/machine.rs: the transition function `step`, one helper for each state.
use Prim.Native.String.{◌++◌}
use faultforge.Prelude.{
  String, true, false, Option, none, some, List, [], ◌∷◌, if◌then◌else◌, or_else,
}
use faultforge.Prelude.Decimal.{show_ℤ}
use faultforge.Fault.State.{InstanceState}
use faultforge.Fault.Protocol.{
  PluginCommand, preflight, inject, Phase, install, runtime, Disposition, success, preflight_failed,
  inject_failed, recovery_failed, unexpected, command_eq, as_str,
}
use faultforge.Agent.Machine.{
  StopCause, deadman, Outcome, reason, outcome, recovery_steps, terminal_state, Recovery, State,
  preflight_install, preflight_runtime, writing_journal, injecting, recovering, Event, setup_ok,
  journal_written, setup_failed, journal_write_failed, command_finished, invocation_failed,
  invoke_rejected, stop_requested, Effect, emit_status, invoke, write_journal, remove_journal,
  mark_tainted,
}

aborted_with : String → State × List Effect
aborted_with why = (State.aborted, emit_status InstanceState.aborted (some why) ∷ [])

-- `extra_reason.unwrap_or_else(..)`
recovery_reason : StopCause → Option String → String
recovery_reason cause none = reason cause
recovery_reason cause (some why) = why

start_recovery : StopCause → Option String → State × List Effect
unfolding recovery_reason
start_recovery cause extra_reason =
    let (current, remaining) = recovery_steps cause in
    let why = recovery_reason cause extra_reason in
    (
      recovering (record {
        current = current;
        remaining = remaining;
        outcome = outcome cause;
        retried = false;
        reason = some why;
      }),
      emit_status InstanceState.recovering (some why) ∷ invoke current runtime ∷ [],
    )

pub describe : Disposition → String
describe success = "success"
describe preflight_failed = "preflight precondition failed"
describe inject_failed = "inject failed"
describe recovery_failed = "cleanup/abort failed"
describe (unexpected code) = "unexpected exit code " ++ show_ℤ code

-- the closure `rebuild` of `step_preflight`
rebuild : Phase → Option StopCause → State
rebuild install stop = preflight_install stop
rebuild runtime stop = preflight_runtime stop

phase_name : Phase → String
phase_name install = "install"
phase_name runtime = "runtime"

preflight_passed : Phase → Option StopCause → State × List Effect
unfolding aborted_with
preflight_passed which (some cause) = aborted_with (reason cause ++ "; never injected")
preflight_passed install none = (preflight_runtime none, invoke preflight runtime ∷ [])
preflight_passed runtime none = (writing_journal none, write_journal ∷ [])

step_preflight : Phase → Option StopCause → Event → State × List Effect
unfolding aborted_with rebuild preflight_passed phase_name
step_preflight which stop (stop_requested cause) = (rebuild which (or_else stop (some cause)), [])
step_preflight which stop (command_finished preflight success) = preflight_passed which stop
step_preflight which stop (command_finished preflight disposition) =
    aborted_with (phase_name which ++ (" preflight: " ++ describe disposition))
step_preflight which stop (invocation_failed preflight why) =
    aborted_with ("preflight invocation failed: " ++ why)
step_preflight which stop (invoke_rejected preflight why) =
    aborted_with ("preflight invocation failed: " ++ why)
step_preflight which stop _ = (rebuild which stop, [])

finish : Outcome → State
finish Outcome.done = State.done
finish Outcome.aborted = State.aborted
finish Outcome.error = State.error

-- The running command succeeded: run the next one, or end.
recovery_success : Recovery → List PluginCommand → State × List Effect
unfolding finish
recovery_success rec [] =
    (finish rec.outcome, remove_journal ∷ emit_status (terminal_state rec.outcome) rec.reason ∷ [])
recovery_success rec (next ∷ remaining) = (
  recovering (record rec { current = next; remaining = remaining; retried = false }),
  invoke next runtime ∷ [],
)

recovery_failure : Recovery → String → State × List Effect
recovery_failure rec detail =
    let why = "recovery failed after retry (" ++ (as_str rec.current ++ ("): " ++ detail)) in
    if rec.retried
    then (
      State.error,
      mark_tainted why ∷ remove_journal ∷ emit_status InstanceState.error (some why) ∷ [],
    )
    else (recovering (record rec { retried = true }), invoke rec.current runtime ∷ [])

step_recovering : Recovery → Event → State × List Effect
unfolding recovery_success recovery_failure
step_recovering rec (stop_requested deadman) =
    (recovering (record rec { outcome = Outcome.error }), [])
step_recovering rec (command_finished command success) =
    if command_eq command rec.current
    then recovery_success rec rec.remaining
    else (recovering rec, [])
step_recovering rec (command_finished command disposition) =
    if command_eq command rec.current
    then recovery_failure rec (describe disposition)
    else (recovering rec, [])
step_recovering rec (invocation_failed command why) =
    if command_eq command rec.current then recovery_failure rec why else (recovering rec, [])
step_recovering rec (invoke_rejected command why) =
    if command_eq command rec.current then recovery_failure rec why else (recovering rec, [])
step_recovering rec _ = (recovering rec, [])

step_pending : Event → State × List Effect
unfolding aborted_with
step_pending setup_ok = (
  preflight_install none,
  emit_status InstanceState.preflight none ∷ invoke preflight install ∷ [],
)
step_pending (setup_failed why) = aborted_with why
step_pending (stop_requested cause) = aborted_with (reason cause ++ "; never started")
step_pending _ = (State.pending, [])

journal_done : Option StopCause → State × List Effect
journal_done (some cause) = (
  State.aborted,
  remove_journal
      ∷ emit_status InstanceState.aborted (some (reason cause ++ "; never injected"))
      ∷ [],
)
journal_done none =
    (injecting none, emit_status InstanceState.injecting none ∷ invoke inject runtime ∷ [])

step_writing_journal : Option StopCause → Event → State × List Effect
unfolding aborted_with journal_done
step_writing_journal stop (stop_requested cause) = (writing_journal (or_else stop (some cause)), [])
step_writing_journal stop journal_written = journal_done stop
step_writing_journal stop (journal_write_failed why) =
    aborted_with ("journal write failed; refusing to inject: " ++ why)
step_writing_journal stop _ = (writing_journal stop, [])

inject_done : Option StopCause → State × List Effect
unfolding start_recovery
inject_done (some cause) = start_recovery cause none
inject_done none = (State.active, emit_status InstanceState.active none ∷ [])

step_injecting : Option StopCause → Event → State × List Effect
unfolding inject_done start_recovery
step_injecting stop (stop_requested cause) = (injecting (or_else stop (some cause)), [])
step_injecting stop (command_finished inject success) = inject_done stop
step_injecting stop (command_finished inject inject_failed) = (
  State.aborted,
  remove_journal ∷ emit_status InstanceState.aborted (some "inject failed; host unaffected") ∷ [],
)
step_injecting stop (command_finished inject disposition) =
    start_recovery deadman (some ("inject: " ++ describe disposition))
step_injecting stop (invocation_failed _ why) =
    start_recovery deadman (some ("inject invocation failed: " ++ why))
step_injecting stop (invoke_rejected _ why) = (
  State.aborted,
  remove_journal ∷ emit_status InstanceState.aborted (some ("inject refused: " ++ why)) ∷ [],
)
step_injecting stop _ = (injecting stop, [])

step_active : Event → State × List Effect
unfolding start_recovery
step_active (stop_requested cause) = start_recovery cause none
step_active _ = (State.active, [])

unfoldable pub step : State → Event → State × List Effect
unfolding step_pending step_preflight step_writing_journal step_injecting step_active
    step_recovering
step State.pending event = step_pending event
step (preflight_install stop) event = step_preflight install stop event
step (preflight_runtime stop) event = step_preflight runtime stop event
step (writing_journal stop) event = step_writing_journal stop event
step (injecting stop) event = step_injecting stop event
step State.active event = step_active event
step (recovering rec) event = step_recovering rec event
step State.done event = (State.done, [])
step State.aborted event = (State.aborted, [])
step State.error event = (State.error, [])
