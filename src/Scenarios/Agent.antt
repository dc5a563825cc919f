-- ===== src/Scenarios/Agent.antt =====
-- crates/agent/src (supervisor.rs and session.rs): the frames of one master, a restart, and an outage.
use Prim.Native.Nat.{min}
use faultforge.Prelude.{
  ◌+◌, ◌≡◌, ◌≤◌, ◌++◌, refl, true, false, none, some, List, [], ◌∷◌, All, arith,
}
use faultforge.Prelude.Int.{pos}
use faultforge.Fault.State.{InstanceState}
use faultforge.Fault.Protocol.{Disposition}
use faultforge.Proto.Messages.{
  RunFault, register, instance_status, instance_report, fault_event, taint_status,
}
use faultforge.Master.Experiment.{hostname_id_safe}
use faultforge.Agent.Host.{JournalEntry, absent}
use faultforge.Agent.Supervisor.{exited}
use faultforge.Agent.Replay.{Disk, Replayed}
use faultforge.Agent.Replay.Boot.{unknown_version, EntryRead, Boot, replay_reads}
use faultforge.Agent.Replay.Closed.{IsDealt, replay_reads-IsDealt}
use faultforge.Agent.Instances.{Instances, no_instances, InstanceHandle, report_frame}
use faultforge.Agent.Instances.Once.{
  Command, runs, aborts, moves, commands, IsOnce, commands-IsOnce,
}
use faultforge.Agent.Machine.{master_lost}
use faultforge.Agent.Wait.Timely.{IsTimely, seen, wait_for_stop-IsTimely}
use faultforge.Agent.Machine.Clock.{next_stop}
use faultforge.Prelude.Int.{saturating_add}
use faultforge.Agent.Wait.{armed, round, Timers, Wake, changed, connected, wait_for_stop, lost}
use faultforge.Agent.Session.{
  Link, AgentState, Attempt, register_ack, ok, tick, outbound, await_ack, interpret_register_ack,
  registered_session, run_session, attempt,
}
use faultforge.Agent.Session.Ledger.{worthy, waiting, ledger}
use faultforge.Agent.Session.Kept.{session_keeps, stranded_is_lost}
use faultforge.Agent.Session.Waits.{attempts, doubled, slept_over, outage_waits}

abbrev order : RunFault
order = record {
  instance_id = "exp-5-0:a:0";
  plugin_name = "noop-marker";
  plugin_version = "1";
  plugin_digest = "";
  params_json = "{}";
  duration_secs = 30;
  grace_secs = 10;
}

-- The same order twice, the second after the instance ended.
abbrev repeated : List Command
repeated =
    runs order
    ∷ aborts "exp-5-0:a:0"
    ∷ moves "exp-5-0:a:0" InstanceState.aborted
    ∷ runs order
    ∷ runs (record order { instance_id = "../x" })
    ∷ []

commands-IsOnce_example : IsOnce (commands no_instances repeated)
commands-IsOnce_example =
    commands-IsOnce no_instances repeated (record { distinct = tt; safe = tt; known = tt })

abbrev handle : InstanceState → InstanceHandle
handle state = record { state = state; plugin_digest = ""; stops = [] }

abbrev busy : Instances
busy = record {
  instances =
      ("b", handle InstanceState.active)
      ∷ ("c", handle InstanceState.done)
      ∷ ("a", handle InstanceState.pending)
      ∷ [];
  spawned = [];
}

a_is_safe : hostname_id_safe "a" ≡ true
unfolding hostname_id_safe
a_is_safe = refl

abbrev entry : JournalEntry
entry = record {
  version = 1;
  instance_id = "exp-5-0:a:0";
  plugin_name = "noop-marker";
  plugin_version = "1";
  plugin_digest = "";
  params = [];
  started_unix_ms = pos 5000;
  duration_secs = 30;
  grace_secs = 10;
  deadline_unix = pos 45;
}

abbrev works : Disk
works = record {
  invocation = λ n. Replayed.ran (exited Disposition.success);
  timeout = "60s";
  remove_error = none;
  mark_error = none;
}

abbrev found : List EntryRead
found = EntryRead.ok entry ∷ EntryRead.err (unknown_version 2) ∷ []

abbrev boot : Boot
boot = record { journal = ("exp-5-0:a:0", entry) ∷ []; taint = absent; frames = [] }

replay_reads-IsDealt_example :
    All
      (IsDealt
        (pos 20)
        (λ e. works)
        none
        (λ e. "version")
        (replay_reads (pos 20) (λ e. works) none (λ e. "version") found boot))
      found
replay_reads-IsDealt_example =
    replay_reads-IsDealt (pos 20) (λ e. works) none (λ e. "version") found boot

-- two results of the replay, a frame of an earlier session, and an outbound one
abbrev waiting_link : Link
waiting_link = record {
  room = 4;
  startup =
      instance_status (record {
        instance_id = "exp-4-0:a:0";
        state = pos 6;
        reason = "";
        ts_unix_ms = pos 3;
        plugin_digest = "";
      })
      ∷ [];
  carry = some (fault_event "exp-4-0:a:0" "{}");
  out = fault_event "exp-5-0:a:0" "{}" ∷ [];
  accepted = [];
  instances = no_instances;
}

abbrev breaks_off : Attempt
breaks_off = record {
  connects = true;
  room = 5;
  opening = some (register_ack (pos 1) 5) ∷ [];
  taint = taint_status false "" (pos 9);
  events = tick ∷ outbound ∷ [];
  now = pos 9;
}

abbrev away : AgentState
away = record { link = waiting_link; conn = lost (pos 2); backoff = 1; slept = 0 }

session_keeps_example :
    ledger (registered_session "a" breaks_off away).link
    ≡ worthy []
      ++ (instance_report (report_frame no_instances (pos 9))
          ∷ taint_status false "" (pos 9)
          ∷ worthy (waiting waiting_link))
session_keeps_example = session_keeps "a" breaks_off away 2 refl refl

abbrev barely : Attempt
barely = record breaks_off { room = 1 }

acked : await_ack barely.opening ≡ ok 5
unfolding await_ack interpret_register_ack
acked = refl

stranded_is_lost_example : (run_session "a" barely away).link ≡ record waiting_link {
  room = 0;
  carry = some (instance_report (report_frame no_instances (pos 9)));
  accepted = register "a" ∷ [];
}
stranded_is_lost_example = stranded_is_lost "a" barely away 5 refl refl acked

abbrev down : Attempt
down = record breaks_off { connects = false }

still_lost : (attempts "a" (down ∷ []) away).conn ≡ lost (pos 2)
unfolding attempts attempt run_session
still_lost = refl

outage_waits_example :
    let s2 = attempts "a" (down ∷ down ∷ []) (attempts "a" (down ∷ []) away) in
    (s2.conn ≡ lost (pos 2))
    × (s2.backoff ≡ min (doubled 2 (attempts "a" (down ∷ []) away).backoff) 30)
    × (s2.slept
        ≡ (attempts "a" (down ∷ []) away).slept
          + slept_over 2 (attempts "a" (down ∷ []) away).backoff)
    × (1 ≤ (attempts "a" (down ∷ []) away).backoff)
    × ((attempts "a" (down ∷ []) away).backoff ≤ 30)
outage_waits_example =
    outage_waits "a" (down ∷ []) (down ∷ down ∷ []) away (pos 2) (omega arith) (omega arith)
      still_lost (refl, (refl, tt))

-- contact is lost for longer than the threshold, between two failed attempts
abbrev timers : Timers
timers = record {
  duration_end_ms = pos 60000;
  deadman_ms = pos 70000;
  loss_threshold_ms = pos 3000;
}

abbrev wakes : List Wake
wakes = changed (pos 2000) (lost (pos 1500)) ∷ changed (pos 4000) (lost (pos 1500)) ∷ []

wait_for_stop-wakes : wait_for_stop timers (pos 1000) connected wakes ≡ (pos 4500, master_lost)
unfolding wait_for_stop round armed next_stop saturating_add
wait_for_stop-wakes = refl

wait_for_stop-IsTimely_example :
    IsTimely timers (seen connected wakes) wakes (wait_for_stop timers (pos 1000) connected wakes)
wait_for_stop-IsTimely_example =
    wait_for_stop-IsTimely timers (pos 1000) connected wakes (omega arith) (omega arith)
      (refl, (refl, tt))
