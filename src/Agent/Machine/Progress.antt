-- ===== src/Agent/Machine/Progress.antt =====
-- Why an instance cannot hang in the machine: every working state waits on exactly one request
-- that was issued for it, and each answer brings the machine nearer to a terminal state.
use faultforge.Prelude.{
  ℕ, ◌+◌, ◌*◌, ◌<◌, ◌≤◌, ◌≡◌, ◌≢◌, Bool, true, false, List, [], ◌∷◌, length, arith,
}
use faultforge.Fault.Protocol.{PluginCommand, Phase, command_eq}
use faultforge.Agent.Machine.{
  StopCause, State, is_terminal, Event, setup_ok, setup_failed, journal_written,
  journal_write_failed, command_finished, invocation_failed, invoke_rejected, stop_requested,
  Effect, invoke, write_journal, preflight_install, preflight_runtime, writing_journal, injecting,
  recovering,
}
use faultforge.Agent.Machine.Step.{step}
use faultforge.Agent.Machine.Valid.{IsValid}

-- The effects whose result comes back as an event.
abbrev pub requests : List Effect → List Effect
requests [] = []
requests (invoke c p ∷ es) = invoke c p ∷ requests es
requests (write_journal ∷ es) = write_journal ∷ requests es
requests (_ ∷ es) = requests es

-- The request that a working state waits on.
abbrev pub waits_on : State → List Effect
waits_on (preflight_install _) = invoke PluginCommand.preflight Phase.install ∷ []
waits_on (preflight_runtime _) = invoke PluginCommand.preflight Phase.runtime ∷ []
waits_on (writing_journal _) = write_journal ∷ []
waits_on (injecting _) = invoke PluginCommand.inject Phase.runtime ∷ []
waits_on (recovering r) = invoke r.current Phase.runtime ∷ []
waits_on _ = []

-- The shell's answers to a request: `apply_effect` makes one of these events.
abbrev pub is_answer : Effect → Event → Bool
is_answer (invoke c _) (command_finished c' _) = command_eq c' c
is_answer (invoke c _) (invocation_failed c' _) = command_eq c' c
is_answer (invoke c _) (invoke_rejected c' _) = command_eq c' c
is_answer write_journal journal_written = true
is_answer write_journal (journal_write_failed _) = true
is_answer _ _ = false

-- The shell takes the setup's result while pending, a stop while active, and else the answer to the
-- request that is out.
abbrev pub is_awaited : State → Event → Bool
is_awaited State.pending setup_ok = true
is_awaited State.pending (setup_failed _) = true
is_awaited State.active (stop_requested _) = true
is_awaited s e = elim (waits_on s) [ [] ↦ false | r ∷ _ ↦ is_answer r e ]

-- The awaited event makes the machine issue exactly the request that its next state waits on.
pub awaited_requests :
    (s : State) (e : Event) → is_awaited s e ≡ true → requests (step s e).1 ≡ waits_on (step s e).0
unfolding step
awaited_requests s e h = ground arith

-- A stop that comes while a request is out issues no other, and leaves the machine waiting for it.
pub early_stop_requests :
    (s : State) (cause : StopCause)
    → waits_on s ≢ []
    → (requests (step s (stop_requested cause)).1 ≡ [])
      × (waits_on (step s (stop_requested cause)).0 ≡ waits_on s)
unfolding step
early_stop_requests s cause w = ground arith

abbrev attempts : Bool → ℕ
attempts true = 0
attempts false = 1

-- The awaited events that a run may still take.
abbrev pub work : State → ℕ
work State.pending = 10
work (preflight_install _) = 9
work (preflight_runtime _) = 8
work (writing_journal _) = 7
work (injecting _) = 6
work State.active = 5
work (recovering r) = 1 + 2 * length r.remaining + attempts r.retried
work _ = 0

-- From a well-formed state each awaited event brings the machine nearer to its end, and no other event
-- takes it further off.
pub work-step :
    (s : State) (e : Event)
    → IsValid s
    → (work (step s e).0 ≤ work s) × (is_awaited s e ≡ true → work (step s e).0 < work s)
unfolding step
work-step s e v = ground arith

pub work_zero : (s : State) → work s ≡ 0 → is_terminal s ≡ true
work_zero s h = ground arith
