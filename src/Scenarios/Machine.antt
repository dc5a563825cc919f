-- ===== src/Scenarios/Machine.antt =====
-- crates/agent/src/machine.rs on concrete events: its tests, and its theorems at one input each.
use faultforge.Prelude.{◌≡◌, ◌⊎◌, inr, refl, true, none, some, List, [], ◌∷◌}
use faultforge.Prelude.Int.{pos, saturating_add}
use faultforge.Fault.State.{InstanceState}
use faultforge.Fault.Protocol.{PluginCommand, Disposition}
use faultforge.Agent.Machine.{
  StopCause, Outcome, Recovery, State, instance_state, is_terminal, Event, setup_ok,
  journal_written, command_finished, stop_requested, writing_journal, recovering,
}
use faultforge.Agent.Machine.Step.{step}
use faultforge.Agent.Machine.Status.{emitted, drive, Ascending, last_or, drive_reports}
use faultforge.Agent.Machine.Safety.{injects, is_live, HasEnded, stop_prevents_inject, live_ends}
use faultforge.Agent.Machine.Clock.{StopClock, next_stop}

abbrev ok_ : PluginCommand → Event
ok_ c = command_finished c Disposition.success

-- `happy_path_events` of the source's tests
abbrev happy_path : List Event
happy_path =
    setup_ok
    ∷ ok_ PluginCommand.preflight
    ∷ ok_ PluginCommand.preflight
    ∷ journal_written
    ∷ ok_ PluginCommand.inject
    ∷ stop_requested StopCause.duration_elapsed
    ∷ ok_ PluginCommand.cleanup
    ∷ []

happy_path_ends : (drive State.pending happy_path).0 ≡ State.done
unfolding drive step
happy_path_ends = refl

abbrev cleaning : Recovery
cleaning = record {
  current = PluginCommand.cleanup;
  remaining = [];
  outcome = Outcome.done;
  retried = true;
  reason = some "duration elapsed";
}

drive_reports_example :
    let (s', effects) = drive State.pending happy_path in
    Ascending 0 (emitted effects)
    × (last_or InstanceState.pending (emitted effects) ≡ instance_state s')
drive_reports_example = drive_reports State.pending happy_path

stop_prevents_inject_example :
    injects
      (drive (step (writing_journal none) (stop_requested StopCause.operator_abort)).0 happy_path).1
    ≡ 0
stop_prevents_inject_example =
    stop_prevents_inject (writing_journal none) StopCause.operator_abort happy_path tt

-- a second failure of `cleanup`
abbrev cleanup_failed : Event
cleanup_failed = command_finished PluginCommand.cleanup Disposition.recovery_failed

live_ends_example :
    (is_live (step (recovering cleaning) cleanup_failed).0 ≡ true)
    ⊎ ((is_terminal (step (recovering cleaning) cleanup_failed).0 ≡ true)
        × HasEnded (recovering cleaning) cleanup_failed (step (recovering cleaning) cleanup_failed))
live_ends_example = live_ends (recovering cleaning) cleanup_failed (inr (refl, refl)) refl

-- contact is lost at 1000, and the instance may run alone for 500 ms
abbrev alone : StopClock
alone = record {
  duration_end_ms = pos 2000;
  deadman_ms = pos 1500;
  master_lost_since_ms = some (pos 1000);
  loss_threshold_ms = pos 500;
}

next_stop-alone : next_stop alone ≡ (pos 1500, StopCause.master_lost)
unfolding next_stop saturating_add
next_stop-alone = refl
