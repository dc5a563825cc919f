-- ===== src/Agent/Supervisor/Rounds.antt =====
-- What one round of the loop of `run_instance` does, from a shell whose queue is fed.
use faultforge.Prelude.{
  ◌≤◌, ◌≡◌, ◌≢◌, ◌⊎◌, inl, inr, refl, ◌∙◌, true, List, [], ◌∷◌, none, some, arith,
}
use faultforge.Agent.Machine.{StopCause, State, is_terminal, Event, stop_requested, Effect}
use faultforge.Agent.Machine.Step.{step}
use faultforge.Agent.Machine.Valid.{IsValid, step-IsValid}
use faultforge.Agent.Machine.Progress.{
  waits_on, is_awaited, work, awaited_requests, early_stop_requests, work-step,
}
use faultforge.Agent.Host.{JournalEntry, Journal, TaintFile}
use faultforge.Agent.Supervisor.{
  World, Shell, setup_event, apply_effects, next_event, advance, start,
}
use faultforge.Agent.Supervisor.Feed.{
  all_stops, answers, state-apply_effects, queue-apply_effects, answers-apply_effects,
}
use faultforge.Agent.Supervisor.Fed.{
  is_fed, IsReady, IsCloser, IsTaken, waits_shape, stop_quiet, never_pending, fed_idle, fed_waiting,
  answers_of_fed, awaited_of_answer, answers_cases, idle_cases, step_terminal, fed_terminal,
}

module _ (entry : JournalEntry) (world : World) where
  -- An awaited event, with only stops behind it.
  awaited-IsReady :
      (e : Event) (q : List Event) (sh : Shell)
      → IsValid sh.state
      → is_awaited sh.state e ≡ true
      → all_stops q ≡ true
      → IsReady (advance entry world e q sh) × IsCloser sh (advance entry world e q sh)
  unfolding advance
  awaited-IsReady e q sh v a h =
      let (s', es) = step sh.state e in
      let sh' : Shell = record sh { state = s'; queue = q } in
      let same = state-apply_effects entry world es sh' in
      let sh'' = apply_effects entry world es sh' in
      let fed : is_fed sh''.state sh''.queue ≡ true = elim (waits_shape s') [
        | inl idle ↦
            rw (same, queue-apply_effects entry world es sh' (awaited_requests sh.state e a ∙ idle))
              (fed_idle s' q idle (never_pending sh.state e a) h)
        | inr (r, waits) ↦ rw same (
            fed_waiting s' r (apply_effects entry world es sh').queue waits (
              answers-apply_effects entry world r es sh' (awaited_requests sh.state e a ∙ waits) h))
      ] in
      (
        record { valid = rw same (step-IsValid sh.state e v); fed = fed },
        inl (rw same ((work-step sh.state e v).1 a)),
      )

  -- A stop that comes while a request is out.
  stopped-IsReady :
      (c : StopCause) (q : List Event) (sh : Shell) (r : Effect)
      → IsValid sh.state
      → waits_on sh.state ≡ r ∷ []
      → answers r q ≡ true
      → IsReady (advance entry world (stop_requested c) q sh)
        × (work (advance entry world (stop_requested c) q sh).state ≤ work sh.state)
        × ((advance entry world (stop_requested c) q sh).queue ≡ q)
  unfolding advance apply_effects
  stopped-IsReady c q sh r v w h =
      let busy : waits_on sh.state ≢ [] = λ idle. cc in
      let s' = (step sh.state (stop_requested c)).0 in
      let waits = (early_stop_requests sh.state c busy).1 ∙ w in
      rw (stop_quiet sh.state c busy) (
        record {
          valid = step-IsValid sh.state (stop_requested c) v;
          fed = fed_waiting s' r q waits h;
        },
        (work-step sh.state (stop_requested c) v).0,
        refl,
      )

  -- What one round of the loop does: it breaks in a terminal state, or takes an event.
  unfoldable pub IsRound : Shell → Type 0
  IsRound sh =
      ((is_terminal sh.state ≡ true) × (next_event entry world sh.state sh.queue ≡ none))
      ⊎ ((e : Event) × (q : List Event) × (next_event entry world sh.state sh.queue ≡ some (e, q))
          × IsReady (advance entry world e q sh)
          × IsCloser sh (advance entry world e q sh)
          × IsTaken e q sh)

  waiting-IsRound : (sh : Shell) (r : Effect) → IsReady sh → waits_on sh.state ≡ r ∷ [] → IsRound sh
  unfolding next_event IsRound advance
  waiting-IsRound sh r v w =
      elim (answers_cases r sh.queue (answers_of_fed sh.state r sh.queue w v.fed)) [
        | inl (c, q, at, rest) ↦
            let (ready, less, same) = stopped-IsReady c q sh r v.valid w rest in
            inr (
              stop_requested c,
              q,
              rw at refl,
              ready,
              inr (less, rw (at, same) (omega arith)),
              inr (stop_quiet sh.state c (λ idle. cc)),
            )
        | inr (e, at, answer) ↦
            let (ready, closer) =
              awaited-IsReady e [] sh v.valid (awaited_of_answer sh.state r e w answer) refl in
            inr (
              e,
              [],
              rw at refl,
              ready,
              closer,
              inl (awaited_of_answer sh.state r e w answer, refl),
            )
      ]

  awaited-IsRound :
      (e : Event) (q : List Event) (sh : Shell)
      → next_event entry world sh.state sh.queue ≡ some (e, q)
      → IsReady sh
      → is_awaited sh.state e ≡ true
      → all_stops q ≡ true
      → IsRound sh
  unfolding IsRound
  awaited-IsRound e q sh next v a h =
      let (ready, closer) = awaited-IsReady e q sh v.valid a h in
      inr (e, q, next, ready, closer, inl (a, h))

  pub next_terminal : (s : State) → is_terminal s ≡ true → next_event entry world s [] ≡ none
  unfolding next_event
  next_terminal s t = ground arith

  terminal-IsRound :
      (q : List Event) (sh : Shell)
      → sh.queue ≡ q
      → IsReady sh
      → is_terminal sh.state ≡ true
      → IsRound sh
  unfolding IsRound next_event advance apply_effects
  terminal-IsRound [] sh at v t = inl (t, rw at (next_terminal sh.state t))
  terminal-IsRound (e ∷ q) sh at v t = inr (
    e,
    q,
    rw at refl,
    rw (step_terminal sh.state e t) (record { valid = v.valid; fed = fed_terminal sh.state q t }),
    rw (step_terminal sh.state e t, at) (inr (omega arith, omega arith)),
    inr (rw (step_terminal sh.state e t) refl),
  )

  active-IsRound :
      (q : List Event) (sh : Shell)
      → sh.queue ≡ q
      → IsReady sh
      → sh.state ≡ State.active
      → all_stops q ≡ true
      → IsRound sh
  unfolding next_event
  active-IsRound [] sh at v s h =
      awaited-IsRound (stop_requested world.stop) [] sh (rw (s, at) refl) v (rw s refl) refl
  active-IsRound (stop_requested c ∷ q) sh at v s h =
      awaited-IsRound (stop_requested c) q sh (rw (s, at) refl) v (rw s refl) h
  active-IsRound (e ∷ q) sh at v s h = cc

  pub round : (sh : Shell) → IsReady sh → IsRound sh
  unfolding next_event
  round sh v = elim (waits_shape sh.state) [
    | inr (r, waits) ↦ waiting-IsRound sh r v waits
    | inl idle ↦ elim (idle_cases sh.state sh.queue idle v.fed) [
      | inl over ↦ terminal-IsRound sh.queue sh refl v over
      | inr (inl (s, e, at, a)) ↦ awaited-IsRound e [] sh (rw at refl) v (rw s a) refl
      | inr (inr (s, h)) ↦ active-IsRound sh.queue sh refl v s h
    ]
  ]

  pub start-IsReady :
      (journal : Journal) (taint : TaintFile) → IsReady (start entry world journal taint)
  unfolding start setup_event
  start-IsReady journal taint = record { valid = tt; fed = ground arith }
