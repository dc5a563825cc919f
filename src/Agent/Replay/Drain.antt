-- ===== src/Agent/Replay/Drain.antt =====
-- What draining the effects of a recovery's step does to the replay.
use faultforge.Prelude.{
  ◌≡◌, ◌⊎◌, inl, inr, refl, ◌∙◌, String, Bool, true, false, none, List, [], ◌∷◌, eq_refl, arith,
}
use faultforge.Prelude.Dict.{get, get-remove}
use faultforge.Fault.Protocol.{PluginCommand, Phase}
use faultforge.Agent.Machine.{
  State, is_terminal, Event, Effect, emit_status, invoke, write_journal, remove_journal,
  mark_tainted, recovering,
}
use faultforge.Agent.Machine.Step.{step}
use faultforge.Agent.Machine.Progress.{requests, waits_on, is_answer, is_awaited}
use faultforge.Agent.Host.{JournalEntry, remove_entry}
use faultforge.Agent.Supervisor.{invocation_event}
use faultforge.Agent.Supervisor.Disk.{removes}
use faultforge.Agent.Replay.{Disk, Replay, Replayed, replay_invoke, replay_effect, drain}

replay_answers :
    (t : String) (c : PluginCommand) (p : Phase) (o : Replayed)
    → is_answer (invoke c p) (replay_invoke t c o) ≡ true
unfolding replay_invoke invocation_event
replay_answers t c p o = ground arith

-- A recovery, or the end.
abbrev pub is_recovery : State → Bool
is_recovery (recovering _) = true
is_recovery s = is_terminal s

pub recovery_step : (s : State) (e : Event) → is_recovery s ≡ true → is_recovery (step s e).0 ≡ true
unfolding step
recovery_step s e h = ground arith

-- The last step of a recovery removes the entry.
pub ending_removes :
    (s : State) (e : Event)
    → is_recovery s ≡ true
    → is_terminal s ≡ false
    → is_terminal (step s e).0 ≡ true
    → removes (step s e).1 ≡ true
unfolding step
ending_removes s e r n t = ground arith

pub waits_terminal : (s : State) → is_terminal s ≡ true → waits_on s ≡ []
waits_terminal s t = ground arith

pub waits_recovery :
    (s : State)
    → is_recovery s ≡ true
    → is_terminal s ≡ false
    → (c : PluginCommand) × (p : Phase) × (waits_on s ≡ invoke c p ∷ [])
waits_recovery (recovering r) h n = (r.current, Phase.runtime, refl)
waits_recovery _ h n = cc

pub awaited_of_answer :
    (s : State) (c : PluginCommand) (p : Phase) (e : Event)
    → waits_on s ≡ invoke c p ∷ []
    → is_answer (invoke c p) e ≡ true
    → is_awaited s e ≡ true
awaited_of_answer s c p e w h = ground arith

module _ (entry : JournalEntry) (disk : Disk) where
  pub state-drain : (es : List Effect) (r : Replay) → (drain entry disk es r).state ≡ r.state
  unfolding drain replay_effect
  state-drain [] r = refl
  state-drain (e ∷ es) r = ground (arith, state-drain es (replay_effect entry disk e r))

  pub queue-drain :
      (es : List Effect) (r : Replay) → requests es ≡ [] → (drain entry disk es r).queue ≡ r.queue
  unfolding drain replay_effect
  queue-drain [] r h = refl
  queue-drain (e ∷ es) r h = ground (arith, queue-drain es (replay_effect entry disk e r))

  -- The drained request of a recovery has its answer queued.
  pub answer-drain :
      (c : PluginCommand) (p : Phase) (es : List Effect) (r : Replay)
      → requests es ≡ invoke c p ∷ []
      → r.queue ≡ []
      → (e : Event) × ((drain entry disk es r).queue ≡ e ∷ []) × (is_answer (invoke c p) e ≡ true)
  unfolding drain replay_effect
  answer-drain c p [] r h q = cc
  answer-drain c p (invoke c' p' ∷ es) r h q =
      let o = disk.invocation r.invocations in
      (
        replay_invoke disk.timeout c' o,
        queue-drain es (replay_effect entry disk (invoke c' p') r) (ground arith) ∙ rw q refl,
        ground (arith, replay_answers disk.timeout c' p o),
      )
  answer-drain c p (write_journal ∷ es) r h q = cc
  answer-drain c p (emit_status s w ∷ es) r h q =
      answer-drain c p es (replay_effect entry disk (emit_status s w) r) h q
  answer-drain c p (remove_journal ∷ es) r h q =
      answer-drain c p es (replay_effect entry disk remove_journal r) h q
  answer-drain c p (mark_tainted w ∷ es) r h q =
      answer-drain c p es (replay_effect entry disk (mark_tainted w) r) h q

  pub gone-drain :
      (es : List Effect) (r : Replay)
      → disk.remove_error ≡ none
      → (removes es ≡ true) ⊎ (get entry.instance_id r.journal ≡ none)
      → get entry.instance_id (drain entry disk es r).journal ≡ none
  unfolding drain replay_effect remove_entry
  gone-drain [] r d (inl never) = cc
  gone-drain [] r d (inr gone) = gone
  gone-drain (remove_journal ∷ es) r d g =
      gone-drain es (replay_effect entry disk remove_journal r) d (
        inr (
          rw (d, remove_entry)
            (get-remove entry.instance_id entry.instance_id r.journal
              ∙ rw (eq_refl entry.instance_id) refl)))
  gone-drain (e ∷ es) r d g = gone-drain es (replay_effect entry disk e r) d g
