-- ===== src/Agent/Replay.antt =====
-- crates/agent/src/supervisor.rs: the replay of one journal entry after a restart, `replay_entry`. What
-- each invocation comes to, and the errors of the file operations, are arguments. The telemetry
-- is that of Agent.Telemetry, and timestamps are left out.
pub mod Drain
pub mod Ends
pub mod Boot
pub mod Closed
use faultforge.Prelude.{
  ℕ, zero, suc, String, Bool, true, false, ◌&&◌, Option, none, some, List, [], ◌∷◌, ◌++◌,
  if◌then◌else◌, or_else,
}
use faultforge.Prelude.Int.{ℤ, ltb_ℤ}
use faultforge.Prelude.Dict.{remove}
use faultforge.Fault.State.{InstanceState}
use faultforge.Fault.Protocol.{PluginCommand}
use faultforge.Agent.Machine.{
  Outcome, State, is_terminal, Event, invoke_rejected, Effect, emit_status, invoke, write_journal,
  remove_journal, mark_tainted, replay_recovery,
}
use faultforge.Agent.Machine.Step.{step}
use faultforge.Agent.Host.{
  JournalEntry, Journal, TaintRecord, TaintFile, remove_entry, current, mark,
}
use faultforge.Agent.Supervisor.{
  InvocationOutcome, invocation_event, AgentMessage, instance_status, taint_status_frame,
  reason_text,
}

-- The gate refuses the plugin, or it runs.
pub data Replayed : Type 0 where
  refused : String → Replayed
  ran : InvocationOutcome → Replayed

pub record Disk : Type 0 where
  -- by the number of earlier invocations
  pub invocation : ℕ → Replayed
  pub timeout : String
  pub remove_error : Option String
  pub mark_error : Option String

pub record Replay : Type 0 where
  pub state : State
  pub effects : List Effect
  pub queue : List Event
  pub journal : Journal
  pub taint : TaintFile
  pub out : List AgentMessage
  pub invocations : ℕ

-- `replay_invoke`, without its telemetry
unfoldable pub replay_invoke : String → PluginCommand → Replayed → Event
replay_invoke timeout command (refused why) = invoke_rejected command why
replay_invoke timeout command (ran outcome) = invocation_event command outcome timeout

-- Past the dead-man's second it is an error. `now_secs` is `now_ms / 1000`.
unfoldable pub replay_outcome : ℤ → ℤ → Outcome
replay_outcome now_secs deadline_unix =
    if ltb_ℤ now_secs deadline_unix then Outcome.aborted else Outcome.error

abbrev pub is_nil {ℓ} : {A : Type ℓ} → List A → Bool
is_nil [] = true
is_nil (_ ∷ _) = false

module _ (entry : JournalEntry) (disk : Disk) where
  -- one round of the `while let`
  unfoldable pub replay_effect : Effect → Replay → Replay
  unfolding reason_text
  replay_effect (emit_status state why) r = record r {
    out =
        r.out ++ instance_status entry.instance_id state (reason_text why) entry.plugin_digest ∷ [];
  }
  replay_effect (invoke command phase) r = record r {
    queue = r.queue ++ replay_invoke disk.timeout command (disk.invocation r.invocations) ∷ [];
    invocations = suc r.invocations;
  }
  replay_effect remove_journal r = record r {
    journal = remove_entry disk.remove_error entry.instance_id r.journal;
  }
  replay_effect (mark_tainted why) r =
      let t : TaintRecord = record { reason = why; instance_id = entry.instance_id } in
      let file = mark disk.mark_error t r.taint in
      record r {
        taint = file;
        out = r.out ++ taint_status_frame (or_else (current file) (some t)) ∷ [];
      }
  replay_effect write_journal r = r

  -- the `while let`
  unfoldable pub drain : List Effect → Replay → Replay
  drain [] r = record r { effects = [] }
  drain (e ∷ es) r = drain es (replay_effect e r)

  -- the event that is popped, and the step on it
  unfoldable pub take : Event → List Event → Replay → Replay
  take e queue r =
      let (s', es) = step r.state e in record r { state = s'; effects = es; queue = queue }

  abbrev pub is_over : Replay → Bool
  is_over r = is_terminal r.state && (is_nil r.queue && is_nil r.effects)

  -- the `loop`; `none` means that the fuel did not last
  unfoldable pub replay_loop : ℕ → Replay → Option Replay
  replay_loop zero r = none
  replay_loop (suc fuel) r =
      let r' = drain r.effects r in
      elim r'.queue [
        | [] ↦ some r'
        | e ∷ queue ↦
            let next = take e queue r' in
            let rest = replay_loop fuel next in if is_over next then some next else rest
      ]

  -- the shell before the loop
  unfoldable pub begin : ℤ → Journal → TaintFile → Replay
  begin now_secs journal taint =
      let (s, es) =
        replay_recovery (replay_outcome now_secs entry.deadline_unix)
          "recovered after agent restart" in
      record {
        state = s;
        effects = es;
        queue = [];
        journal = journal;
        taint = taint;
        out = [];
        invocations = 0;
      }
