-- ===== src/Agent/Supervisor/Feed.antt =====
-- The queue of the shell: an instance that waits on a request has its answer queued, behind stops.
use faultforge.Prelude.{◌≡◌, refl, String, Bool, true, false, List, [], ◌∷◌, ◌++◌, arith}
use faultforge.Fault.Protocol.{PluginCommand, Phase}
use faultforge.Agent.Machine.{
  StopCause, Event, stop_requested, Effect, emit_status, invoke, write_journal, remove_journal,
  mark_tainted,
}
use faultforge.Agent.Machine.Progress.{requests, is_answer}
use faultforge.Agent.Host.{JournalEntry}
use faultforge.Agent.Supervisor.{
  World, Shell, Invocation, refused, unchecked, ran, lost, invocation_event, push_stops,
  invoke_gated, journal_event, apply_effect, apply_effects,
}

abbrev pub all_stops : List Event → Bool
all_stops [] = true
all_stops (stop_requested _ ∷ q) = all_stops q
all_stops _ = false

-- Stops, and then the answer to the request.
abbrev pub answers : Effect → List Event → Bool
answers r [] = false
answers r (stop_requested _ ∷ q) = answers r q
answers r (e ∷ []) = is_answer r e
answers r _ = false

all_stops-push_stops :
    (stops : List StopCause) (q : List Event)
    → all_stops q ≡ true
    → all_stops (push_stops stops q) ≡ true
unfolding push_stops
all_stops-push_stops [] q h = h
all_stops-push_stops (c ∷ stops) q h = all_stops-push_stops stops (stop_requested c ∷ q) h

answers-append :
    (r : Effect) (q : List Event) (e : Event)
    → all_stops q ≡ true
    → is_answer r e ≡ true
    → answers r (q ++ e ∷ []) ≡ true
answers-append r [] e h a = ground arith
answers-append r (c ∷ q) e h a = ground (arith, answers-append r q e)

module _ (entry : JournalEntry) (world : World) where
  pub state-apply_effects :
      (es : List Effect) (sh : Shell) → (apply_effects entry world es sh).state ≡ sh.state
  unfolding apply_effects apply_effect
  state-apply_effects [] sh = refl
  state-apply_effects (e ∷ es) sh =
      ground (arith, state-apply_effects es (apply_effect entry world e sh))

  pub queue-apply_effects :
      (es : List Effect) (sh : Shell)
      → requests es ≡ []
      → (apply_effects entry world es sh).queue ≡ sh.queue
  unfolding apply_effects apply_effect
  queue-apply_effects [] sh h = refl
  queue-apply_effects (e ∷ es) sh h =
      ground (arith, queue-apply_effects es (apply_effect entry world e sh))

  gated_answers :
      (t : String) (c : PluginCommand) (p : Phase) (i : Invocation) (q : List Event)
      → all_stops q ≡ true
      → (all_stops (invoke_gated t c i q).0 ≡ true)
        × (is_answer (invoke c p) (invoke_gated t c i q).1 ≡ true)
  unfolding invoke_gated invocation_event
  gated_answers t c p (refused why) q h = (h, ground arith)
  gated_answers t c p (unchecked why) q h = (h, ground arith)
  gated_answers t c p (ran stops o) q h = (all_stops-push_stops stops q h, ground arith)
  gated_answers t c p (lost stops why) q h = (all_stops-push_stops stops q h, ground arith)

  answers-invoke :
      (c : PluginCommand) (p : Phase) (sh : Shell)
      → all_stops sh.queue ≡ true
      → answers (invoke c p) (apply_effect entry world (invoke c p) sh).queue ≡ true
  unfolding apply_effect
  answers-invoke c p sh q =
      let i = world.invocation sh.invocations in
      let (queue, event) = invoke_gated world.timeout c i sh.queue in
      let (stops, answer) = gated_answers world.timeout c p i sh.queue q in
      answers-append (invoke c p) queue event stops answer

  answers-write :
      (sh : Shell)
      → all_stops sh.queue ≡ true
      → answers write_journal (apply_effect entry world write_journal sh).queue ≡ true
  unfolding apply_effect journal_event
  answers-write sh q = answers-append write_journal sh.queue _ q (ground arith)

  pub answers-apply_effects :
      (r : Effect) (es : List Effect) (sh : Shell)
      → requests es ≡ r ∷ []
      → all_stops sh.queue ≡ true
      → answers r (apply_effects entry world es sh).queue ≡ true
  unfolding apply_effects apply_effect
  answers-apply_effects r [] sh h q = cc
  answers-apply_effects r (invoke c p ∷ es) sh h q = ground (
    arith,
    queue-apply_effects es (apply_effect entry world (invoke c p) sh),
    answers-invoke c p sh q,
  )
  answers-apply_effects r (write_journal ∷ es) sh h q = ground (
    arith,
    queue-apply_effects es (apply_effect entry world write_journal sh),
    answers-write sh q,
  )
  answers-apply_effects r (emit_status s why ∷ es) sh h q =
      answers-apply_effects r es (apply_effect entry world (emit_status s why) sh) h q
  answers-apply_effects r (remove_journal ∷ es) sh h q =
      answers-apply_effects r es (apply_effect entry world remove_journal sh) h q
  answers-apply_effects r (mark_tainted why ∷ es) sh h q =
      answers-apply_effects r es (apply_effect entry world (mark_tainted why) sh) h q
