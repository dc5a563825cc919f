-- ===== src/Master/Dispatch/Invariant.antt =====
-- What holds of every record between two handlers, and that every handler keeps it.
use faultforge.Prelude.{◌≡◌, ◌≢◌, true, false, none, some, is_some, Option-cases, inl, inr, arith}
use faultforge.Master.Experiment.{
  Cause, ExperimentOutcome, completed, running, halting, concluded, Experiment, is_concluded,
}
use faultforge.Master.Experiment.Record.{kill_trigger, outcome, cause_in}
use faultforge.Master.Experiment.Outcome.{cause_found}
use faultforge.Master.Dispatch.Switch.{
  or_cause, fire_kill_switch, conclude_if_done, react_to_update,
}
use faultforge.Master.Dispatch.Marks.{all_asked, none_asked, all_asked-mark_requested}

-- What a running or halting record keeps while its instances are being changed.
pub record IsOpen (e : Experiment) : Type 0 where
  pub open_ : is_concluded e ≡ false
  pub running_untouched : e.phase ≡ running → (e.cause ≡ none) × (none_asked e.instances ≡ true)
  pub halting_asked : e.phase ≡ halting → (is_some e.cause ≡ true) × (all_asked e.instances ≡ true)

pub record Inv (e : Experiment) : Type 0 where
  -- while running nothing has fired the switch, and nobody was asked to abort
  pub running_quiet :
      e.phase ≡ running
      → (e.cause ≡ none) × (none_asked e.instances ≡ true) × (kill_trigger e ≡ none)
  -- while halting the cause is known, and every live instance was asked to abort
  pub halting_asked : e.phase ≡ halting → (is_some e.cause ≡ true) × (all_asked e.instances ≡ true)
  -- a record with every instance terminal is not left open
  pub open_live : is_concluded e ≡ false → outcome e ≡ none
  -- a concluded record has the outcome of its instances, and names a cause unless it completed
  pub concluded_named :
      (o : ExperimentOutcome)
      → e.phase ≡ concluded o
      → (outcome e ≡ some o) × (o ≢ completed → is_some e.cause ≡ true)

named :
    (e : Experiment) (o : ExperimentOutcome)
    → outcome e ≡ some o
    → o ≢ completed
    → is_some (or_cause e.cause (cause_in e.instances e.tainted_hosts o)) ≡ true
named e o h n = ground (arith, cause_found e.instances e.tainted_hosts o h n)

-- A record with every instance terminal concludes, whatever else is known of it.
pub conclude_over-Inv :
    (e : Experiment) (o : ExperimentOutcome)
    → is_concluded e ≡ false
    → outcome e ≡ some o
    → Inv (conclude_if_done e)
unfolding conclude_if_done
conclude_over-Inv e o p over =
    rw (p, over, conclude_if_done)
      (record {
        running_quiet = λ r. cc;
        halting_asked = λ r. cc;
        open_live = λ r. cc;
        concluded_named = λ o' c. (ground arith, λ n. named e o over (λ x. n (ground arith)));
      })

pub conclude_if_done-Inv :
    (e : Experiment) → IsOpen e → kill_trigger e ≡ none → Inv (conclude_if_done e)
unfolding conclude_if_done
conclude_if_done-Inv e p k = elim (Option-cases (outcome e)) [
  | inl live ↦
      rw (p.open_, live, conclude_if_done)
        (record {
          running_quiet = λ r. ground (arith, p.running_untouched r);
          halting_asked = p.halting_asked;
          open_live = λ _. live;
          concluded_named = λ o c. ground (arith, p.open_);
        })
  | inr (o, over) ↦ conclude_over-Inv e o p.open_ over
]

pub fire_kill_switch-IsOpen :
    (e : Experiment) (c : Cause)
    → is_concluded e ≡ false
    → IsOpen (fire_kill_switch e c).0 × (kill_trigger (fire_kill_switch e c).0 ≡ none)
unfolding fire_kill_switch
fire_kill_switch-IsOpen e c open_ = ground (arith, all_asked-mark_requested e.instances)

-- Reacting to a change of an open record leaves a record that satisfies the invariant.
pub react_to_update-Inv : (e : Experiment) → IsOpen e → Inv (react_to_update e).0
unfolding react_to_update
react_to_update-Inv e p = elim (Option-cases (kill_trigger e)) [
  | inl quiet ↦ rw (quiet, react_to_update) (conclude_if_done-Inv e p quiet)
  | inr (c, fired) ↦
      let (p', quiet) = fire_kill_switch-IsOpen e c p.open_ in
      rw (fired, react_to_update) (conclude_if_done-Inv (fire_kill_switch e c).0 p' quiet)
]

pub Inv-IsOpen : (e : Experiment) → Inv e → is_concluded e ≡ false → IsOpen e
Inv-IsOpen e v p = record {
  open_ = p;
  running_untouched = λ r. ground (arith, v.running_quiet r);
  halting_asked = v.halting_asked;
}
