-- ===== src/Agent/Supervisor/Disk.antt =====
-- What the effects of a step do to the journal's entry of the instance, and to its reports.
use faultforge.Prelude.{
  ◌≡◌, ◌≢◌, ◌⊎◌, refl, ◌∙◌, String, Bool, true, false, List, [], ◌∷◌, ◌++◌, ◌||◌, Option, none,
  some, eq_refl, arith,
}
use faultforge.Prelude.Dict.{get, get-insert}
use faultforge.Fault.Protocol.{PluginCommand}
use faultforge.Agent.Machine.{
  StopCause, State, Event, journal_written, stop_requested, Effect, invoke, write_journal,
  remove_journal,
}
use faultforge.Agent.Machine.Step.{step}
use faultforge.Agent.Machine.Valid.{IsValid}
use faultforge.Agent.Machine.Safety.{is_live}
use faultforge.Agent.Host.{JournalEntry, Journal, write}
use faultforge.Agent.Supervisor.{
  World, Shell, Invocation, refused, unchecked, ran, lost, push_stops, invoke_gated,
  invocation_event, journal_event, apply_effect, apply_effects,
}
use faultforge.Agent.Supervisor.Feed.{all_stops}

abbrev pub is_written : Event → Bool
is_written journal_written = true
is_written _ = false

-- The journal's success is reported in the queue.
abbrev pub has_written : List Event → Bool
has_written [] = false
has_written (e ∷ q) = is_written e || has_written q

abbrev pub removes : List Effect → Bool
removes [] = false
removes (remove_journal ∷ es) = true
removes (_ ∷ es) = removes es

pub unwritten_stops : (q : List Event) → all_stops q ≡ true → has_written q ≡ false
unwritten_stops [] h = refl
unwritten_stops (e ∷ q) h = ground (arith, unwritten_stops q)

pub live_keeps :
    (s : State) (e : Event) → is_live (step s e).0 ≡ true → removes (step s e).1 ≡ false
unfolding step
live_keeps s e l = ground arith

-- The fault becomes live at the journal's success alone.
pub live_from :
    (s : State) (e : Event)
    → IsValid s
    → is_live (step s e).0 ≡ true
    → (is_live s ≡ true) ⊎ ((e ≡ journal_written) × ((step s e).1 ≢ []))
unfolding step
live_from s e v l = ground arith

abbrev pub writes : List Effect → Bool
writes [] = false
writes (write_journal ∷ es) = true
writes (_ ∷ es) = writes es

pub write_alone :
    (s : State) (e : Event) → (writes (step s e).1 ≡ false) ⊎ ((step s e).1 ≡ write_journal ∷ [])
unfolding step
write_alone s e = ground arith

written-push_stops :
    (stops : List StopCause) (q : List Event) → has_written (push_stops stops q) ≡ has_written q
unfolding push_stops
written-push_stops [] q = refl
written-push_stops (c ∷ stops) q = written-push_stops stops (stop_requested c ∷ q)

written-append :
    (q : List Event) (e : Event) → has_written (q ++ e ∷ []) ≡ (has_written q || is_written e)
written-append [] e = ground arith
written-append (c ∷ q) e = ground (arith, written-append q e)

written-invoke_gated :
    (t : String) (c : PluginCommand) (i : Invocation) (q : List Event)
    → (has_written (invoke_gated t c i q).0 ≡ has_written q)
      × (is_written (invoke_gated t c i q).1 ≡ false)
unfolding invoke_gated invocation_event
written-invoke_gated t c (refused why) q = (refl, refl)
written-invoke_gated t c (unchecked why) q = (refl, refl)
written-invoke_gated t c (ran stops o) q = (written-push_stops stops q, ground arith)
written-invoke_gated t c (lost stops why) q = (written-push_stops stops q, refl)

abbrev pub HasEntry : JournalEntry → Shell → Type 0
HasEntry entry sh = get entry.instance_id sh.journal ≡ some entry

module _ (entry : JournalEntry) (world : World) where
  entry-write :
      (failure : Option String) (journal : Journal)
      → get entry.instance_id journal ≡ some entry
      → get entry.instance_id (write failure entry journal) ≡ some entry
  unfolding write
  entry-write none journal h =
      get-insert entry.instance_id entry.instance_id entry journal
      ∙ rw (eq_refl entry.instance_id) refl
  entry-write (some why) journal h = h

  pub HasEntry-apply_effects :
      (es : List Effect) (sh : Shell)
      → removes es ≡ false
      → HasEntry entry sh
      → HasEntry entry (apply_effects entry world es sh)
  unfolding apply_effects apply_effect
  HasEntry-apply_effects [] sh r h = h
  HasEntry-apply_effects (write_journal ∷ es) sh r h =
      HasEntry-apply_effects es (apply_effect entry world write_journal sh) r
        (entry-write world.write_error sh.journal h)
  HasEntry-apply_effects (remove_journal ∷ es) sh r h = cc
  HasEntry-apply_effects (e ∷ es) sh r h =
      HasEntry-apply_effects es (apply_effect entry world e sh) r h

  pub written-apply_effects :
      (es : List Effect) (sh : Shell)
      → writes es ≡ false
      → has_written (apply_effects entry world es sh).queue ≡ has_written sh.queue
  unfolding apply_effects apply_effect
  written-apply_effects [] sh w = refl
  written-apply_effects (write_journal ∷ es) sh w = cc
  written-apply_effects (invoke c p ∷ es) sh w =
      let i = world.invocation sh.invocations in
      let (queue, event) = invoke_gated world.timeout c i sh.queue in
      ground (
        arith,
        written-apply_effects es (apply_effect entry world (invoke c p) sh),
        written-invoke_gated world.timeout c i sh.queue,
        written-append queue event,
      )
  written-apply_effects (e ∷ es) sh w = written-apply_effects es (apply_effect entry world e sh) w

  -- A success that is reported stands on the disk.
  pub write_reported :
      (sh : Shell)
      → has_written sh.queue ≡ false
      → has_written (apply_effects entry world (write_journal ∷ []) sh).queue ≡ true
      → HasEntry entry (apply_effects entry world (write_journal ∷ []) sh)
  unfolding apply_effects apply_effect journal_event write
  write_reported sh q h = at world.write_error refl
    where
      at :
          (failure : Option String)
          → world.write_error ≡ failure
          → HasEntry entry (apply_effects entry world (write_journal ∷ []) sh)
      at none e =
          rw (e, write)
            (get-insert entry.instance_id entry.instance_id entry sh.journal
              ∙ rw (eq_refl entry.instance_id) refl)
      at (some why) e = ground (arith, written-append sh.queue (journal_event world.write_error), e)
