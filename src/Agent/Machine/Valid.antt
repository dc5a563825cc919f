-- ===== src/Agent/Machine/Valid.antt =====
-- The well-formed states: a recovery either runs `abort` with `cleanup` queued, or runs `cleanup`.
use faultforge.Prelude.{String, ◌≡◌, ◌⊎◌, inl, refl, List, [], ◌∷◌, arith}
use faultforge.Fault.Protocol.{PluginCommand}
use faultforge.Agent.Machine.{Outcome, Recovery, State, recovering, Event, replay_recovery}
use faultforge.Agent.Machine.Step.{step}
use faultforge.Agent.Machine.Status.{drive}

abbrev pub IsRecovery : Recovery → Type 0
IsRecovery r =
    ((r.current ≡ PluginCommand.abort) × (r.remaining ≡ PluginCommand.cleanup ∷ []))
    ⊎ ((r.current ≡ PluginCommand.cleanup) × (r.remaining ≡ []))

abbrev pub IsValid : State → Type 0
IsValid (recovering r) = IsRecovery r
IsValid _ = Unit {0}

-- Every event, in every state, keeps the states well-formed.
pub step-IsValid : (s : State) (e : Event) → IsValid s → IsValid (step s e).0
unfolding step
step-IsValid s e v = ground arith

-- So does every sequence of events.
pub drive-IsValid : (s : State) (es : List Event) → IsValid s → IsValid (drive s es).0
unfolding drive
drive-IsValid s [] v = v
drive-IsValid s (e ∷ es) v = drive-IsValid (step s e).0 es (step-IsValid s e v)

-- A restart's replay begins in a well-formed state.
pub replay_recovery-IsValid : (o : Outcome) (why : String) → IsValid (replay_recovery o why).0
unfolding replay_recovery
replay_recovery-IsValid o why = inl (refl, refl)
