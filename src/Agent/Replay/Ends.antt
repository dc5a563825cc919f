-- ===== src/Agent/Replay/Ends.antt =====
-- A replay ends after a bounded number of rounds, in a terminal state, with its entry removed.
use faultforge.Prelude.{
  ℕ, zero, suc, ◌<◌, ◌≤◌, ◌≡◌, inl, inr, refl, ◌∙◌, true, false, none, some, [], ◌∷◌, Bool-cases,
  arith,
}
use faultforge.Prelude.Int.{ℤ}
use faultforge.Prelude.Dict.{get}
use faultforge.Agent.Machine.{is_terminal, Event, replay_recovery}
use faultforge.Agent.Machine.Valid.{IsValid, step-IsValid, replay_recovery-IsValid}
use faultforge.Agent.Machine.Progress.{
  requests, waits_on, is_awaited, work, awaited_requests, work_zero, work-step,
}
use faultforge.Agent.Host.{JournalEntry, Journal, TaintFile}
use faultforge.Agent.Supervisor.Disk.{removes}
use faultforge.Agent.Replay.{Disk, Replay, replay_outcome, drain, take, replay_loop, begin, is_over}
use faultforge.Agent.Replay.Drain.{
  is_recovery, recovery_step, ending_removes, waits_terminal, waits_recovery, awaited_of_answer,
  state-drain, queue-drain, answer-drain, gone-drain,
}

module _ (entry : JournalEntry) (disk : Disk) where
  -- At the head of the loop.
  record IsGoing (r : Replay) : Type 0 where
    valid : IsValid r.state
    recovers : is_recovery r.state ≡ true
    answered : r.queue ≡ []
    asks : requests r.effects ≡ waits_on r.state
    removing : is_terminal r.state ≡ true → removes r.effects ≡ true

  -- The loop breaks by then, in a terminal state, and the entry is gone if the disk let it go.
  abbrev pub HasEnd : ℕ → Replay → Type 0
  HasEnd fuel r =
      (final : Replay) × (replay_loop entry disk fuel r ≡ some final)
      × (is_terminal final.state ≡ true)
      × (disk.remove_error ≡ none → get entry.instance_id final.journal ≡ none)

  HasEnd-terminal : (w : ℕ) (r : Replay) → IsGoing r → is_terminal r.state ≡ true → HasEnd (suc w) r
  unfolding replay_loop drain
  HasEnd-terminal w r g t =
      let es = r.effects in
      let nothing = queue-drain entry disk es r (g.asks ∙ waits_terminal r.state t) ∙ g.answered in
      (
        drain entry disk es r,
        rw (nothing, replay_loop) refl,
        rw (state-drain entry disk es r) t,
        λ d. gone-drain entry disk es r d (inl (g.removing t)),
      )

  IsGoing-take :
      (e : Event) (r : Replay)
      → IsValid r.state
      → is_recovery r.state ≡ true
      → is_terminal r.state ≡ false
      → is_awaited r.state e ≡ true
      → IsGoing (take entry disk e [] r)
  unfolding take
  IsGoing-take e r v s n a = record {
    valid = step-IsValid r.state e v;
    recovers = recovery_step r.state e s;
    answered = refl;
    asks = awaited_requests r.state e a;
    removing = ending_removes r.state e s n;
  }

  -- A step that ends the instance leaves effects to drain, so that the loop goes on.
  not_over :
      (r : Replay)
      → (is_terminal r.state ≡ true → removes r.effects ≡ true)
      → is_over entry disk r ≡ false
  not_over r removing = ground (arith, removing)

  loop_take :
      (fuel : ℕ) (e : Event) (r : Replay)
      → (drain entry disk r.effects r).queue ≡ e ∷ []
      → is_over entry disk (take entry disk e [] (drain entry disk r.effects r)) ≡ false
      → replay_loop entry disk (suc fuel) r
        ≡ replay_loop entry disk fuel (take entry disk e [] (drain entry disk r.effects r))
  unfolding replay_loop take
  loop_take fuel e r queued on = rw (queued, on, replay_loop) refl

  HasEnd-round :
      (w : ℕ) (e : Event) (r : Replay)
      → (drain entry disk r.effects r).queue ≡ e ∷ []
      → IsGoing (take entry disk e [] (drain entry disk r.effects r))
      → HasEnd w (take entry disk e [] (drain entry disk r.effects r))
      → HasEnd (suc w) r
  HasEnd-round w e r queued next (final, runs, over, gone) =
      let r' = take entry disk e [] (drain entry disk r.effects r) in
      (final, loop_take w e r queued (not_over r' next.removing) ∙ runs, over, gone)

  -- The event that a recovery takes, and where it leads.
  IsGoing-next :
      (r : Replay)
      → IsGoing r
      → is_terminal r.state ≡ false
      → (e : Event) × ((drain entry disk r.effects r).queue ≡ e ∷ [])
        × IsGoing (take entry disk e [] (drain entry disk r.effects r))
        × (work (take entry disk e [] (drain entry disk r.effects r)).state < work r.state)
  unfolding take
  IsGoing-next r g n =
      let (c, p, waits) = waits_recovery r.state g.recovers n in
      let (e, queued, answer) =
        answer-drain entry disk c p r.effects r (g.asks ∙ waits) g.answered in
      let a = awaited_of_answer r.state c p e waits answer in
      let same = state-drain entry disk r.effects r in
      let r' = drain entry disk r.effects r in
      (
        e,
        queued,
        IsGoing-take e r' (rw same g.valid) (rw same g.recovers) (rw same n) (rw same a),
        rw same ((work-step r.state e g.valid).1 a),
      )

  HasEnd-work : (w : ℕ) (r : Replay) → work r.state ≤ w → IsGoing r → HasEnd (suc w) r
  HasEnd-work zero r h g = HasEnd-terminal zero r g (work_zero r.state (omega arith))
  HasEnd-work (suc w) r h g = elim (Bool-cases (is_terminal r.state)) [
    | inl t ↦ HasEnd-terminal (suc w) r g t
    | inr n ↦
        let (e, queued, next, nearer) = IsGoing-next r g n in
        HasEnd-round (suc w) e r queued next
          (HasEnd-work w (take entry disk e [] (drain entry disk r.effects r)) (omega arith) next)
  ]

  begin-IsGoing :
      (now_secs : ℤ) (journal : Journal) (taint : TaintFile)
      → IsGoing (begin entry disk now_secs journal taint)
  unfolding begin replay_recovery
  begin-IsGoing now_secs journal taint = record {
    valid =
        replay_recovery-IsValid (replay_outcome now_secs entry.deadline_unix)
          "recovered after agent restart";
    recovers = refl;
    answered = refl;
    asks = refl;
    removing = λ t. cc;
  }

  -- Whatever the plugin and the disk do, the replay of a journal entry is over after five rounds of
  -- its loop at most: the instance is then terminal, and unless the removal of the entry fails, the
  -- journal does not have it any more.
  pub replay_entry_ends :
      (now_secs : ℤ) (journal : Journal) (taint : TaintFile)
      → (final : Replay) × (replay_loop entry disk 5 (begin entry disk now_secs journal taint)
          ≡ some final)
        × (is_terminal final.state ≡ true)
        × (disk.remove_error ≡ none → get entry.instance_id final.journal ≡ none)
  unfolding begin replay_recovery
  replay_entry_ends now_secs journal taint =
      HasEnd-work 4 (begin entry disk now_secs journal taint) (omega arith)
        (begin-IsGoing now_secs journal taint)
