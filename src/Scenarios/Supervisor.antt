-- ===== src/Scenarios/Supervisor.antt =====
-- crates/agent/src/supervisor.rs: an instance whose cleanup fails twice, with a stop during `inject`.
use faultforge.Prelude.{ℕ, ◌≡◌, refl, true, none, some, [], ◌∷◌, ◌==◌, if◌then◌else◌, ltb}
use faultforge.Prelude.Int.{pos}
use faultforge.Prelude.Dict.{get}
use faultforge.Fault.Protocol.{Disposition}
use faultforge.Agent.Machine.{StopCause, State, is_terminal}
use faultforge.Agent.Machine.Step.{step}
use faultforge.Agent.Machine.Safety.{is_live}
use faultforge.Agent.Host.{JournalEntry, absent}
use faultforge.Agent.Supervisor.{
  World, Shell, ran, exited, invoke_gated, apply_effect, apply_effects, next_event, advance,
  run_loop, rounds, start,
}
use faultforge.Agent.Replay.{Disk, Replay, Replayed, replay_loop, begin}
use faultforge.Agent.Replay.Ends.{replay_entry_ends}
use faultforge.Agent.Supervisor.Ends.{run_instance_ends}
use faultforge.Agent.Supervisor.Journaled.{live_journaled}

abbrev marker_run : JournalEntry
marker_run = record {
  version = 1;
  instance_id = "exp-5-0:a:0";
  plugin_name = "noop-marker";
  plugin_version = "0.1.0";
  plugin_digest = "sha256:00";
  params = [];
  started_unix_ms = pos 5000;
  duration_secs = 30;
  grace_secs = 10;
  deadline_unix = pos 45;
}

-- both preflights and the injection succeed, an operator stops the injection, all recovery fails
abbrev bad_day : World
bad_day = record {
  setup_error = none;
  stop = StopCause.duration_elapsed;
  invocation = λ n.
      if ltb n 2
      then ran [] (exited Disposition.success)
      else if n == 2
      then ran (StopCause.operator_abort ∷ []) (exited Disposition.success)
      else ran [] (exited Disposition.recovery_failed);
  timeout = "30s";
  write_error = none;
  remove_error = none;
  mark_error = none;
}

run_instance_ends_example :
    (fuel : ℕ) × (final : Shell) × (run_loop marker_run bad_day fuel
        (start marker_run bad_day [] absent)
      ≡ some final)
    × (is_terminal final.state ≡ true)
run_instance_ends_example = run_instance_ends marker_run bad_day [] absent

bad_day_taints :
    (rounds marker_run bad_day 12 (start marker_run bad_day [] absent)).state ≡ State.error
unfolding rounds next_event start advance apply_effects step apply_effect invoke_gated
bad_day_taints = refl

-- after the setup, two preflights, the journal and the stop
injecting_then :
    is_live (rounds marker_run bad_day 5 (start marker_run bad_day [] absent)).state ≡ true
unfolding rounds next_event start advance apply_effects step apply_effect invoke_gated
injecting_then = refl

live_journaled_example :
    get "exp-5-0:a:0" (rounds marker_run bad_day 5 (start marker_run bad_day [] absent)).journal
    ≡ some marker_run
live_journaled_example = live_journaled marker_run bad_day [] absent 5 injecting_then

-- the operator's stop came before the result of `inject`; nothing is left in the queue at the end
drained : (rounds marker_run bad_day 12 (start marker_run bad_day [] absent)).queue ≡ []
unfolding rounds next_event start advance apply_effects step apply_effect invoke_gated
drained = refl

-- after the restart, `abort` succeeds and `cleanup` fails twice
abbrev after_restart : Disk
after_restart = record {
  invocation = λ n.
      if n == 0
      then Replayed.ran (exited Disposition.success)
      else Replayed.ran (exited Disposition.recovery_failed);
  timeout = "30s";
  remove_error = none;
  mark_error = none;
}

replay_entry_ends_example :
    (final : Replay) × (replay_loop marker_run after_restart 5
        (begin marker_run after_restart (pos 50) (("exp-5-0:a:0", marker_run) ∷ []) absent)
      ≡ some final)
    × (is_terminal final.state ≡ true)
    × (after_restart.remove_error ≡ none → get marker_run.instance_id final.journal ≡ none)
replay_entry_ends_example =
    replay_entry_ends marker_run after_restart (pos 50) (("exp-5-0:a:0", marker_run) ∷ []) absent
