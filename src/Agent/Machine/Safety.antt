-- ===== src/Agent/Machine/Safety.antt =====
-- What holds of the machine over every sequence of events: what `inject` needs, what a stop
-- prevents, and how a live fault may end.
use faultforge.Prelude.{
  ℕ, ◌+◌, ◌≤◌, ◌≡◌, ◌≢◌, ◌⊎◌, inl, inr, refl, String, Bool, true, false, Option, none, some, List,
  [], ◌∷◌, ◌++◌, arith,
}
use faultforge.Fault.Protocol.{PluginCommand, Disposition}
use faultforge.Agent.Machine.{
  StopCause, deadman, Outcome, Recovery, State, is_terminal, Event, command_finished,
  invoke_rejected, journal_written, stop_requested, Effect, emit_status, invoke, write_journal,
  remove_journal, mark_tainted, preflight_install, preflight_runtime, writing_journal, injecting,
  recovering,
}
use faultforge.Agent.Machine.Step.{step}
use faultforge.Agent.Machine.Status.{drive}
use faultforge.Agent.Machine.Valid.{IsValid, step-IsValid}

-- The `inject` invocations among the effects.
abbrev pub injects : List Effect → ℕ
injects [] = 0
injects (invoke PluginCommand.inject _ ∷ es) = 1 + injects es
injects (_ ∷ es) = injects es

injects-append : (xs ys : List Effect) → injects (xs ++ ys) ≡ injects xs + injects ys
injects-append [] ys = omega arith
injects-append (invoke PluginCommand.inject p ∷ xs) ys = omega (arith, injects-append xs ys)
injects-append (invoke PluginCommand.preflight p ∷ xs) ys = injects-append xs ys
injects-append (invoke PluginCommand.report p ∷ xs) ys = injects-append xs ys
injects-append (invoke PluginCommand.abort p ∷ xs) ys = injects-append xs ys
injects-append (invoke PluginCommand.cleanup p ∷ xs) ys = injects-append xs ys
injects-append (emit_status s w ∷ xs) ys = injects-append xs ys
injects-append (write_journal ∷ xs) ys = injects-append xs ys
injects-append (remove_journal ∷ xs) ys = injects-append xs ys
injects-append (mark_tainted w ∷ xs) ys = injects-append xs ys

abbrev unstopped : Option StopCause → ℕ
unstopped none = 1
unstopped (some _) = 0

-- How often the machine may still inject.
abbrev pub inject_budget : State → ℕ
inject_budget State.pending = 1
inject_budget (preflight_install stop) = unstopped stop
inject_budget (preflight_runtime stop) = unstopped stop
inject_budget (writing_journal stop) = unstopped stop
inject_budget _ = 0

step_budget :
    (s : State) (e : Event)
    → IsValid s
    → injects (step s e).1 + inject_budget (step s e).0 ≤ inject_budget s
unfolding step
step_budget s e v = ground arith

-- Over any events from a well-formed state, `inject` is issued at most once, and not at all from
-- a state that has recorded a stop, that has injected already, or that is terminal.
pub injects-drive :
    (s : State) (es : List Event) → IsValid s → injects (drive s es).1 ≤ inject_budget s
unfolding drive
injects-drive s [] v = omega arith
injects-drive s (e ∷ es) v =
    let (s', effects) = step s e in
    omega (
      arith,
      step_budget s e v,
      injects-drive s' es (step-IsValid s e v),
      injects-append effects (drive s' es).1,
    )

stop_spends : (s : State) (cause : StopCause) → inject_budget (step s (stop_requested cause)).0 ≡ 0
unfolding step
stop_spends s cause = ground arith

-- After a stop request in a well-formed state, whatever the state and the cause, no later events
-- make the machine issue `inject`.
pub stop_prevents_inject :
    (s : State) (cause : StopCause) (es : List Event)
    → IsValid s
    → injects (drive (step s (stop_requested cause)).0 es).1 ≡ 0
stop_prevents_inject s cause es v =
    let s' = (step s (stop_requested cause)).0 in
    omega (arith, injects-drive s' es (step-IsValid s _ v), stop_spends s cause)

-- From a well-formed state `inject` is issued in one situation alone: the journal entry was
-- reported as written, and no stop was recorded before.
pub inject_needs_journal :
    (s : State) (e : Event)
    → IsValid s
    → injects (step s e).1 ≢ 0
    → (s ≡ writing_journal none) × (e ≡ journal_written)
unfolding step
inject_needs_journal s e v h = ground arith

-- The fault may be on the host.
abbrev pub is_live : State → Bool
is_live (injecting _) = true
is_live State.active = true
is_live (recovering _) = true
is_live _ = false

abbrev pub taints : List Effect → Bool
taints [] = false
taints (mark_tainted _ ∷ _) = true
taints (_ ∷ es) = taints es

-- How a fault that may be live can end, on each branch: the plugin's `cleanup` succeeded, or the
-- host is marked tainted and the instance ends in error, or `inject` itself was refused before it
-- started or says that it left the host unaffected.
abbrev pub HasEnded : State → Event → State × List Effect → Type 0
HasEnded s e (s', effects) =
    ((e ≡ command_finished PluginCommand.cleanup Disposition.success) × (taints effects ≡ false))
    ⊎ ((s' ≡ State.error) × (taints effects ≡ true))
    ⊎ ((why : String) × (c : PluginCommand) × (e ≡ invoke_rejected c why) × (s' ≡ State.aborted))
    ⊎ ((e ≡ command_finished PluginCommand.inject Disposition.inject_failed) × (s' ≡ State.aborted))

-- A step from a well-formed state in which the fault may be live leaves it in such a state, or
-- ends the instance: after a `cleanup` that succeeded, or in error with the host marked tainted,
-- or aborted because a command was refused before it started, or because `inject` says that it
-- left the host unaffected. No other step loses sight of the fault.
pub live_ends :
    (s : State) (e : Event)
    → IsValid s
    → is_live s ≡ true
    → (is_live (step s e).0 ≡ true) ⊎ ((is_terminal (step s e).0 ≡ true) × HasEnded s e (step s e))
unfolding step
live_ends (injecting stop) (invoke_rejected c why) v l =
    inr (refl, inr (inr (inl (why, c, refl, refl))))
live_ends s e v l = ground arith

-- The instance ends in error, or is already there.
abbrev pub is_doomed : State → Bool
is_doomed (recovering r) = elim r.outcome [ Outcome.error ↦ true | _ ↦ false ]
is_doomed State.error = true
is_doomed _ = false

step_doomed : (s : State) (e : Event) → is_doomed s ≡ true → is_doomed (step s e).0 ≡ true
unfolding step
step_doomed s e d = ground arith

drive_doomed : (s : State) (es : List Event) → is_doomed s ≡ true → is_doomed (drive s es).0 ≡ true
unfolding drive
drive_doomed s [] d = d
drive_doomed s (e ∷ es) d = drive_doomed (step s e).0 es (step_doomed s e d)

-- Once the fault is active, or recovery runs, a dead-man stop commits the instance to an error:
-- whatever happens later, it recovers towards an error or has ended in one.
pub deadman_dooms :
    (s : State) (es : List Event)
    → (s ≡ State.active) ⊎ ((r : Recovery) × (s ≡ recovering r))
    → is_doomed (drive s (stop_requested deadman ∷ es)).0 ≡ true
unfolding drive
deadman_dooms s es h = drive_doomed (step s (stop_requested deadman)).0 es (commits s h)
  where
    commits :
        (t : State)
        → (t ≡ State.active) ⊎ ((r : Recovery) × (t ≡ recovering r))
        → is_doomed (step t (stop_requested deadman)).0 ≡ true
    commits t h' = unfold step in ground arith
