-- ===== src/Agent/Supervisor/Journaled.antt =====
-- What a crash of the agent finds on the disk: while the fault may be on the host, the journal has
-- the instance's entry, so that the restart can undo it.
use faultforge.Prelude.{ℕ, zero, suc, ◌≡◌, ◌⊎◌, inl, inr, refl, true, List, [], ◌||◌, some, arith}
use faultforge.Prelude.Dict.{get}
use faultforge.Agent.Machine.{is_terminal, State, Event}
use faultforge.Agent.Machine.Step.{step}
use faultforge.Agent.Machine.Safety.{is_live}
use faultforge.Agent.Host.{JournalEntry, Journal, TaintFile}
use faultforge.Agent.Supervisor.{
  World, Shell, setup_event, apply_effects, next_event, advance, rounds, start,
}
use faultforge.Agent.Supervisor.Feed.{state-apply_effects}
use faultforge.Agent.Supervisor.Fed.{is_fed, IsReady, IsTaken}
use faultforge.Agent.Supervisor.Rounds.{IsRound, round, start-IsReady}
use faultforge.Agent.Supervisor.Disk.{
  is_written, has_written, unwritten_stops, live_keeps, live_from, write_alone, HasEntry,
  HasEntry-apply_effects, written-apply_effects, write_reported,
}

fed_nothing : (s : State) → is_fed s [] ≡ true → (is_terminal s ≡ true) ⊎ (s ≡ State.active)
fed_nothing s h = ground arith

module _ (entry : JournalEntry) (world : World) where
  -- Between two rounds: a fault that may be live, and a success that is reported, have their entry.
  pub record IsKept (sh : Shell) : Type 0 where
    pub ready : IsReady sh
    pub live : is_live sh.state ≡ true → HasEntry entry sh
    pub reported : has_written sh.queue ≡ true → HasEntry entry sh

  next_written :
      (s : State) (queue : List Event) (e : Event) (q : List Event)
      → next_event entry world s queue ≡ some (e, q)
      → (is_written e || has_written q) ≡ true
      → has_written queue ≡ true
  unfolding next_event
  next_written s queue e q next h = ground arith

  -- What is live after the event, or reported by it, was on the disk before.
  entry_before :
      (e : Event) (q : List Event) (sh : Shell)
      → IsKept sh
      → next_event entry world sh.state sh.queue ≡ some (e, q)
      → is_live (step sh.state e).0 ≡ true
      → HasEntry entry sh
  entry_before e q sh k next l = elim (live_from sh.state e k.ready.valid l) [
    | inl live ↦ k.live live
    | inr (success, _) ↦ k.reported (next_written sh.state sh.queue e q next (rw success refl))
  ]

  IsKept-advance :
      (e : Event) (q : List Event) (sh : Shell)
      → IsKept sh
      → next_event entry world sh.state sh.queue ≡ some (e, q)
      → IsTaken e q sh
      → IsReady (advance entry world e q sh)
      → IsKept (advance entry world e q sh)
  unfolding advance apply_effects
  IsKept-advance e q sh k next (inr quiet) ready = record {
    ready = ready;
    live = λ l. rw quiet (entry_before e q sh k next (rw quiet at l));
    reported = λ r. rw quiet (k.reported (next_written sh.state sh.queue e q next (ground arith)));
  }
  IsKept-advance e q sh k next (inl (awaited, stops)) ready =
      let (s', es) = step sh.state e in
      let sh' : Shell = record sh { state = s'; queue = q } in
      let same = state-apply_effects entry world es sh' in
      let fresh = unwritten_stops q stops in
      record {
        ready = ready;
        live = λ l.
            let l' : is_live s' ≡ true = rw same at l in
            HasEntry-apply_effects entry world es sh' (live_keeps sh.state e l')
              (entry_before e q sh k next l');
        reported = λ r. elim (write_alone sh.state e) [
          | inl silent ↦ cc (written-apply_effects entry world es sh' silent, fresh, r)
          | inr alone ↦ rw alone (write_reported entry world sh' fresh (rw alone at r))
        ];
      }

  IsKept-rounds : (n : ℕ) (sh : Shell) → IsKept sh → IsKept (rounds entry world n sh)
  unfolding rounds IsRound
  IsKept-rounds zero sh k = k
  IsKept-rounds (suc n) sh k = elim (round entry world sh k.ready) [
    | inl (over, stops) ↦ rw (stops, rounds) k
    | inr (e, q, next, ready, closer, taken) ↦
        rw (next, rounds)
          (IsKept-rounds n (advance entry world e q sh) (IsKept-advance e q sh k next taken ready))
  ]

  IsKept-start : (journal : Journal) (taint : TaintFile) → IsKept (start entry world journal taint)
  unfolding start setup_event
  IsKept-start journal taint = record {
    ready = start-IsReady entry world journal taint;
    live = λ l. cc;
    reported = λ r. ground arith;
  }

  -- After any number of rounds, whatever the world has answered: if the fault may be on the host (the
  -- instance injects, is active or recovers), then the journal has the instance's entry.
  pub live_journaled :
      (journal : Journal) (taint : TaintFile) (n : ℕ)
      → let sh = rounds entry world n (start entry world journal taint) in
        is_live sh.state ≡ true → get entry.instance_id sh.journal ≡ some entry
  live_journaled journal taint n =
      (IsKept-rounds n (start entry world journal taint) (IsKept-start journal taint)).live

  -- The loop never falls into its fail-safe branch: where no event is queued, the instance is active
  -- or terminal.
  pub never_wedged :
      (journal : Journal) (taint : TaintFile) (n : ℕ)
      → let sh = rounds entry world n (start entry world journal taint) in
        sh.queue ≡ [] → (is_terminal sh.state ≡ true) ⊎ (sh.state ≡ State.active)
  never_wedged journal taint n empty =
      let sh = rounds entry world n (start entry world journal taint) in
      let ready =
        (IsKept-rounds n (start entry world journal taint) (IsKept-start journal taint)).ready in
      fed_nothing sh.state (rw empty at ready.fed)
