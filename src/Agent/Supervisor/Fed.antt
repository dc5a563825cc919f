-- ===== src/Agent/Supervisor/Fed.antt =====
-- The queue that the loop of `run_instance` needs in each state, and what a state makes of an event.
use faultforge.Prelude.{
  ◌<◌, ◌≤◌, ◌≡◌, ◌≢◌, ◌⊎◌, inl, inr, refl, Bool, true, false, List, [], ◌∷◌, length, arith,
}
use faultforge.Agent.Machine.{StopCause, State, is_terminal, Event, stop_requested, Effect}
use faultforge.Agent.Machine.Step.{step}
use faultforge.Agent.Machine.Valid.{IsValid}
use faultforge.Agent.Machine.Progress.{waits_on, is_answer, is_awaited, work}
use faultforge.Agent.Supervisor.{Shell}
use faultforge.Agent.Supervisor.Feed.{all_stops, answers}

-- The first setup event, or the answer that the state waits on, is queued; an active instance has
-- stops queued at most.
abbrev pub is_fed : State → List Event → Bool
is_fed State.pending (e ∷ []) = is_awaited State.pending e
is_fed State.pending _ = false
is_fed State.active q = all_stops q
is_fed s q = elim (waits_on s) [ [] ↦ true | r ∷ _ ↦ answers r q ]

pub record IsReady (sh : Shell) : Type 0 where
  pub valid : IsValid sh.state
  pub fed : is_fed sh.state sh.queue ≡ true

-- A queued event is taken that brings the end nearer, or that only shortens the queue.
abbrev pub IsCloser : Shell → Shell → Type 0
IsCloser sh sh' =
    (work sh'.state < work sh.state)
    ⊎ ((work sh'.state ≤ work sh.state) × (length sh'.queue < length sh.queue))

-- The event is awaited, with only stops behind it, or it has no effect.
abbrev pub IsTaken : Event → List Event → Shell → Type 0
IsTaken e q sh =
    ((is_awaited sh.state e ≡ true) × (all_stops q ≡ true)) ⊎ ((step sh.state e).1 ≡ [])

pub waits_shape : (s : State) → (waits_on s ≡ []) ⊎ ((r : Effect) × (waits_on s ≡ r ∷ []))
waits_shape s = ground arith

pub stop_quiet : (s : State) (c : StopCause) → waits_on s ≢ [] → (step s (stop_requested c)).1 ≡ []
unfolding step
stop_quiet s c w = ground arith

pub never_pending : (s : State) (e : Event) → is_awaited s e ≡ true → (step s e).0 ≢ State.pending
unfolding step
never_pending s e a = ground arith

pub fed_idle :
    (s : State) (q : List Event)
    → waits_on s ≡ []
    → s ≢ State.pending
    → all_stops q ≡ true
    → is_fed s q ≡ true
fed_idle s q w p h = ground arith

pub fed_waiting :
    (s : State) (r : Effect) (q : List Event)
    → waits_on s ≡ r ∷ []
    → answers r q ≡ true
    → is_fed s q ≡ true
fed_waiting s r q w h = ground arith

pub answers_of_fed :
    (s : State) (r : Effect) (q : List Event)
    → waits_on s ≡ r ∷ []
    → is_fed s q ≡ true
    → answers r q ≡ true
answers_of_fed s r q w h = ground arith

pub awaited_of_answer :
    (s : State) (r : Effect) (e : Event)
    → waits_on s ≡ r ∷ []
    → is_answer r e ≡ true
    → is_awaited s e ≡ true
awaited_of_answer s r e w h = ground arith

pub answers_cases :
    (r : Effect) (q : List Event)
    → answers r q ≡ true
    → ((c : StopCause) × (q' : List Event) × (q ≡ stop_requested c ∷ q') × (answers r q' ≡ true))
      ⊎ ((e : Event) × (q ≡ e ∷ []) × (is_answer r e ≡ true))
answers_cases r [] h = cc
answers_cases r (stop_requested c ∷ q) h = inl (c, q, refl, h)
answers_cases r (e ∷ []) h = inr (e, refl, h)
answers_cases r (e ∷ f ∷ q) h = cc

pub idle_cases :
    (s : State) (q : List Event)
    → waits_on s ≡ []
    → is_fed s q ≡ true
    → (is_terminal s ≡ true)
      ⊎ ((s ≡ State.pending) × (e : Event) × (q ≡ e ∷ []) × (is_awaited State.pending e ≡ true))
      ⊎ ((s ≡ State.active) × (all_stops q ≡ true))
idle_cases State.pending [] w h = cc
idle_cases State.pending (e ∷ []) w h = inr (inl (refl, e, refl, h))
idle_cases State.pending (e ∷ f ∷ q) w h = cc
idle_cases State.active q w h = inr (inr (refl, h))
idle_cases State.done q w h = inl refl
idle_cases State.aborted q w h = inl refl
idle_cases State.error q w h = inl refl
idle_cases _ q w h = cc

pub step_terminal : (s : State) (e : Event) → is_terminal s ≡ true → step s e ≡ (s, [])
unfolding step
step_terminal s e h = ground arith

pub fed_terminal : (s : State) (q : List Event) → is_terminal s ≡ true → is_fed s q ≡ true
fed_terminal s q h = ground arith
