-- ===== src/Master/Dispatch/Handled.antt =====
-- Every handler keeps the invariant of a record, and the deadline ends it.
use faultforge.Prelude.{
  ◌≡◌, ◌∙◌, refl, String, true, false, some, List, [], ◌∷◌, IsDistinct, Option-cases, Bool-cases,
  inl, inr, arith,
}
use faultforge.Prelude.Int.{ℤ}
use faultforge.Fault.State.{InstanceState}
use faultforge.Master.Experiment.{
  Cause, ExperimentOutcome, ExperimentPhase, running, halting, concluded, InstanceRecord,
  Experiment, is_concluded, is_concluded_phase,
}
use faultforge.Master.Experiment.Record.{
  any_live, update_instance, apply_status, record_taint, targets_host, outcome_in, outcome,
  kill_trigger,
}
use faultforge.Master.Dispatch.Switch.{
  or_cause, fire_kill_switch, conclude_if_done, react_to_update, status_update, taint_update,
  halt_cause, halt_update, unresolved, deadline_cause, deadline_reason, expire, deadline_update,
}
use faultforge.Master.Dispatch.Updates.{
  ids, none_asked-update, all_asked-update, ids-update, update_over, ids-mark_requested,
  outcome_total, expire_one, covered, covered-expire_one, covered-unresolved, quiet_of_covered,
}
use faultforge.Master.Dispatch.Invariant.{
  IsOpen, Inv, conclude_over-Inv, conclude_if_done-Inv, fire_kill_switch-IsOpen,
  react_to_update-Inv, Inv-IsOpen,
}

pub record IsSound (e : Experiment) : Type 0 where
  pub inv : Inv e
  pub distinct : IsDistinct (ids e.instances)

concluded_with :
    (p : ExperimentPhase)
    → is_concluded_phase p ≡ true
    → (o : ExperimentOutcome) × (p ≡ concluded o)
concluded_with (concluded o) h = (o, refl)
concluded_with running h = cc
concluded_with halting h = cc

-- A concluded record has no live instance.
concluded_quiet : (e : Experiment) → Inv e → is_concluded e ≡ true → any_live e.instances ≡ false
unfolding outcome_in
concluded_quiet e v c =
    let (o, at) = concluded_with e.phase c in ground (arith, v.concluded_named o at)

ids-conclude_if_done : (e : Experiment) → ids (conclude_if_done e).instances ≡ ids e.instances
unfolding conclude_if_done
ids-conclude_if_done e = ground arith

ids-fire_kill_switch :
    (e : Experiment) (c : Cause) → ids (fire_kill_switch e c).0.instances ≡ ids e.instances
unfolding fire_kill_switch
ids-fire_kill_switch e c = ground (arith, ids-mark_requested e.instances)

pub ids-react_to_update : (e : Experiment) → ids (react_to_update e).0.instances ≡ ids e.instances
unfolding react_to_update
ids-react_to_update e = elim (Option-cases (kill_trigger e)) [
  | inl quiet ↦ rw (quiet, react_to_update) (ids-conclude_if_done e)
  | inr (c, fired) ↦ rw (fired, react_to_update) (ids-conclude_if_done _ ∙ ids-fire_kill_switch e c)
]

react-IsSound :
    (e : Experiment) → IsOpen e → IsDistinct (ids e.instances) → IsSound (react_to_update e).0
react-IsSound e p d = record {
  inv = react_to_update-Inv e p;
  distinct = rw (ids-react_to_update e) d;
}

module _ (id : String) (state : InstanceState) (why : String) (ts : ℤ) where
  with_update-IsOpen :
      (e : Experiment) (is' : List InstanceRecord)
      → IsOpen e
      → update_instance id state why ts e.instances ≡ some is'
      → IsOpen (record e { instances = is' })
  with_update-IsOpen e is' p h = record {
    open_ = p.open_;
    running_untouched = λ r. (
      (p.running_untouched r).0,
      none_asked-update id state why ts e.instances is' h (p.running_untouched r).1,
    );
    halting_asked = λ r. (
      (p.halting_asked r).0,
      all_asked-update id state why ts e.instances is' h (p.halting_asked r).1,
    );
  }

  -- A status report, for whatever instance and with whatever content, keeps the record sound.
  pub status_update-IsSound :
      (e : Experiment) → IsSound e → IsSound (status_update e id state why ts).0
  unfolding status_update apply_status
  status_update-IsSound e v = elim (Option-cases (update_instance id state why ts e.instances)) [
    | inl missed ↦ rw (missed, status_update, apply_status) v
    | inr (is', found) ↦ elim (Bool-cases (is_concluded e)) [
      | inl c ↦ cc (found, update_over id state why ts e.instances (concluded_quiet e v.inv c))
      | inr o ↦
          rw (found, status_update, apply_status)
            (react-IsSound (record e { instances = is' })
              (with_update-IsOpen e is' (Inv-IsOpen e v.inv o) found)
              (rw (ids-update id state why ts e.instances is' found) v.distinct))
    ]
  ]

-- So does a taint report for any host.
pub taint_update-IsSound :
    (e : Experiment) (host why : String) (ts : ℤ)
    → IsSound e
    → IsSound (taint_update e host why ts).0
unfolding taint_update record_taint
taint_update-IsSound e host why ts v = elim (Bool-cases (is_concluded e)) [
  | inl c ↦ rw (c, taint_update) v
  | inr o ↦ elim (Bool-cases (targets_host e host)) [
    | inr t ↦ rw (o, t, taint_update) v
    | inl t ↦
        rw (o, t, taint_update)
          (react-IsSound (record_taint e host why ts) (tainted-IsOpen (Inv-IsOpen e v.inv o))
            (rw same_ids v.distinct))
  ]
]
  where
    same_ids : ids (record_taint e host why ts).instances ≡ ids e.instances
    same_ids = ground arith

    tainted-IsOpen : IsOpen e → IsOpen (record_taint e host why ts)
    tainted-IsOpen p = ground arith

-- So does an operator's halt.
pub halt_update-IsSound :
    (e : Experiment) (why : String) (now : ℤ) → IsSound e → IsSound (halt_update e why now).0
unfolding halt_update
halt_update-IsSound e why now v = elim (Bool-cases (is_concluded e)) [
  | inl c ↦ rw (concluded_halt e why now c) v
  | inr o ↦
      let (p', quiet) = fire_kill_switch-IsOpen e (halt_cause why now) o in
      record {
        inv = conclude_if_done-Inv _ p' quiet;
        distinct =
            let fired = ids-fire_kill_switch e (halt_cause why now) in
            rw (ids-conclude_if_done (fire_kill_switch e (halt_cause why now)).0 ∙ fired)
              v.distinct;
      }
]
  where
    concluded_halt :
        (e : Experiment) (why : String) (now : ℤ)
        → is_concluded e ≡ true
        → (halt_update e why now).0 ≡ e
    concluded_halt e why now c = unfold fire_kill_switch conclude_if_done in ground arith

-- The loop over the unresolved instances, on the list alone.
unfoldable pub expire_all : ℤ → List (String × String) → List InstanceRecord → List InstanceRecord
expire_all now [] is = is
expire_all now ((_, id) ∷ late) is = expire_all now late (expire_one id now is)

pub expire_lem :
    (e : Experiment) (now : ℤ) (late : List (String × String))
    → expire e now late ≡ record e { instances = expire_all now late e.instances }
unfolding expire expire_all apply_status
expire_lem e now [] = refl
expire_lem e now ((h, id) ∷ late) =
    expire_lem (apply_status e id InstanceState.error deadline_reason now).0 now late ∙ ground arith

ids-expire_one :
    (id : String) (now : ℤ) (is : List InstanceRecord) → ids (expire_one id now is) ≡ ids is
ids-expire_one id now is =
    elim (Option-cases (update_instance id InstanceState.error deadline_reason now is)) [
      | inl e ↦ rw e
      | inr (is', e) ↦ rw e (ids-update id InstanceState.error deadline_reason now is is' e)
    ]

ids-expire_all :
    (now : ℤ) (late : List (String × String)) (is : List InstanceRecord)
    → ids (expire_all now late is) ≡ ids is
unfolding expire_all
ids-expire_all now [] is = refl
ids-expire_all now ((h, id) ∷ late) is =
    ids-expire_all now late (expire_one id now is) ∙ ids-expire_one id now is

-- The loop over ids that cover the live instances leaves none of them live.
pub expire_all_quiet :
    (now : ℤ) (late : List (String × String)) (is : List InstanceRecord)
    → IsDistinct (ids is)
    → covered late is ≡ true
    → any_live (expire_all now late is) ≡ false
unfolding expire_all
expire_all_quiet now [] is d c = quiet_of_covered is c
expire_all_quiet now ((h, id) ∷ late) is d c =
    expire_all_quiet now late (expire_one id now is) (rw (ids-expire_one id now is) d)
      (covered-expire_one h id now late is d c)

conclude_quiet :
    (e : Experiment)
    → is_concluded e ≡ false
    → any_live e.instances ≡ false
    → IsDistinct (ids e.instances)
    → (is_concluded (conclude_if_done e) ≡ true) × IsSound (conclude_if_done e)
unfolding conclude_if_done
conclude_quiet e o quiet d = elim (Option-cases (outcome e)) [
  | inl live ↦ cc (live, outcome_total e.instances e.tainted_hosts quiet)
  | inr (x, over) ↦ (
    rw (o, over, conclude_if_done) refl,
    record { inv = conclude_over-Inv e x o over; distinct = rw (ids-conclude_if_done e) d },
  )
]

-- At its deadline an open record concludes, whatever its instances have reported until then.
pub deadline_concludes :
    (e : Experiment) (now : ℤ)
    → IsSound e
    → (is_concluded (deadline_update e now).0 ≡ true) × IsSound (deadline_update e now).0
unfolding deadline_update
deadline_concludes e now v = elim (Bool-cases (is_concluded e)) [
  | inl c ↦ rw (c, deadline_update) (c, v)
  | inr o ↦
      let late = unresolved e.instances in
      let e' = record e { cause = or_cause e.cause (deadline_cause now late) } in
      rw (o, deadline_update, expire_lem e' now late)
        (conclude_quiet (record e' { instances = expire_all now late e.instances }) o
          (expire_all_quiet now late e.instances v.distinct (covered-unresolved e.instances))
          (rw (ids-expire_all now late e.instances) v.distinct))
]
