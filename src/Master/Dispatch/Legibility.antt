-- ===== src/Master/Dispatch/Legibility.antt =====
-- Which cause a concluded record names: the first that fired, even where a later one decided the outcome.
use text.Mathlib.Text.{◌==◌ as str_eq}
use faultforge.Prelude.{
  ◌≡◌, ◌≢◌, refl, String, true, false, none, some, List, [], ◌∷◌, ◌++◌, any, Bool-cases, inl, inr,
  arith,
}
use faultforge.Prelude.Int.{ℤ}
use faultforge.Master.Experiment.{
  Cause, ExperimentOutcome, error, running, halting, concluded, InstanceRecord, TaintedHost,
  Experiment, is_concluded,
}
use faultforge.Master.Experiment.Record.{any_live, record_taint, targets_host, outcome_in, outcome}
use faultforge.Master.Dispatch.Switch.{
  or_cause, mark_requested, fire_kill_switch, conclude_if_done, react_to_update, taint_update,
  halt_cause, halt_update, unresolved, deadline_cause, deadline_update,
}
use faultforge.Master.Dispatch.Marks.{live_marked}
use faultforge.Master.Dispatch.Updates.{outcome_total, covered-unresolved}
use faultforge.Master.Dispatch.Handled.{
  IsSound, taint_update-IsSound, halt_update-IsSound, expire_lem, expire_all, expire_all_quiet,
}

outcome_live :
    (is : List InstanceRecord) (ts : List TaintedHost)
    → any_live is ≡ true
    → outcome_in is ts ≡ none
unfolding outcome_in
outcome_live is ts l = rw l refl

outcome_tainted :
    (is : List InstanceRecord) (ts : List TaintedHost)
    → any_live is ≡ false
    → ts ≢ []
    → outcome_in is ts ≡ some error
unfolding outcome_in
outcome_tainted is [] q n = absurd (n refl)
outcome_tainted is (t ∷ ts) q n = ground arith

live_of_open :
    (is : List InstanceRecord) (ts : List TaintedHost)
    → outcome_in is ts ≡ none
    → any_live is ≡ true
live_of_open is ts o = ground (arith, outcome_total is ts)

not_nil {ℓ} : {A : Type ℓ} (x : A) (xs : List A) → xs ++ x ∷ [] ≢ []
not_nil x [] h = cc
not_nil x (y ∷ xs) h = cc

conclude_live : (e : Experiment) → any_live e.instances ≡ true → conclude_if_done e ≡ e
unfolding conclude_if_done
conclude_live e l = ground (arith, outcome_live e.instances e.tainted_hosts)

taints_recorded :
    (e : Experiment) (h why : String) (ts : ℤ) → (record_taint e h why ts).tainted_hosts ≢ []
unfolding record_taint
taints_recorded e h why ts n = elim (Bool-cases (any (λ t. str_eq t.hostname h) e.tainted_hosts)) [
  | inl known ↦ ground arith
  | inr new ↦ not_nil _ e.tainted_hosts (rw new at n)
]

targets_marked :
    (h : String) (is : List InstanceRecord)
    → any (λ i. str_eq i.hostname h) (mark_requested is) ≡ any (λ i. str_eq i.hostname h) is
unfolding mark_requested
targets_marked h [] = refl
targets_marked h (i ∷ is) = ground (arith, targets_marked h is)

-- A live record that halts for this cause.
record HaltsFor (c : Cause) (e : Experiment) : Type 0 where
  phase_is : e.phase ≡ halting
  cause_is : e.cause ≡ some c
  live : any_live e.instances ≡ true

halt_HaltsFor :
    (e : Experiment) (why : String) (now : ℤ)
    → e.phase ≡ running
    → e.cause ≡ none
    → any_live e.instances ≡ true
    → HaltsFor (halt_cause why now) (halt_update e why now).0
      × ((halt_update e why now).0.instances ≡ mark_requested e.instances)
unfolding halt_update fire_kill_switch conclude_if_done
halt_HaltsFor e why now p c l =
    ground
      (arith, live_marked e.instances, outcome_live (mark_requested e.instances) e.tainted_hosts)

taint_HaltsFor :
    (e : Experiment) (c : Cause) (h why : String) (ts : ℤ)
    → HaltsFor c e
    → targets_host e h ≡ true
    → HaltsFor c (taint_update e h why ts).0 × ((taint_update e h why ts).0.tainted_hosts ≢ [])
unfolding taint_update react_to_update conclude_if_done record_taint
taint_HaltsFor e c h why ts v t =
    let e' = record_taint e h why ts in
    let same : (taint_update e h why ts).0 ≡ e' = ground (arith, conclude_live e') in
    rw same (
      record { phase_is = ground arith; cause_is = ground arith; live = ground arith },
      taints_recorded e h why ts,
    )

conclude_over :
    (e : Experiment) (o : ExperimentOutcome) (c : Cause)
    → is_concluded e ≡ false
    → outcome e ≡ some o
    → e.cause ≡ some c
    → ((conclude_if_done e).phase ≡ concluded o) × ((conclude_if_done e).cause ≡ some c)
unfolding conclude_if_done
conclude_over e o c p over known = rw (p, over, conclude_if_done) (refl, rw known refl)

deadline_error :
    (e : Experiment) (c : Cause) (now : ℤ)
    → HaltsFor c e
    → IsSound e
    → e.tainted_hosts ≢ []
    → ((deadline_update e now).0.phase ≡ concluded error)
      × ((deadline_update e now).0.cause ≡ some c)
unfolding deadline_update conclude_if_done
deadline_error e c now v s n =
    let late = unresolved e.instances in
    let e' = record e { cause = or_cause e.cause (deadline_cause now late) } in
    let quiet = expire_all_quiet now late e.instances s.distinct (covered-unresolved e.instances) in
    let over = outcome_tainted (expire_all now late e.instances) e.tainted_hosts quiet n in
    let open_ : is_concluded e ≡ false = ground arith in
    rw (open_, deadline_update, expire_lem e' now late)
      (conclude_over (record e' { instances = expire_all now late e.instances }) error c open_ over
        (rw v.cause_is refl))

-- For a sound running experiment: where a host that it targets is tainted after an operator's
-- halt, and then the deadline comes, the outcome is ERROR, and the recorded cause is still the
-- halt, which names no host.
pub halted_taint_unnamed :
    (e : Experiment) (why : String) (now : ℤ) (host taint : String) (ts later : ℤ)
    → IsSound e
    → e.phase ≡ running
    → targets_host e host ≡ true
    → let e1 = (halt_update e why now).0 in
      let e2 = (taint_update e1 host taint ts).0 in
      let e3 = (deadline_update e2 later).0 in
      (e3.phase ≡ concluded error) × (e3.cause ≡ some (halt_cause why now))
unfolding targets_host
halted_taint_unnamed e why now host taint ts later s p t =
    let live = live_of_open e.instances e.tainted_hosts (s.inv.open_live (ground arith)) in
    let e1 = (halt_update e why now).0 in
    let e2 = (taint_update e1 host taint ts).0 in
    let (h1, marked) = halt_HaltsFor e why now p (s.inv.running_quiet p).0 live in
    let (h2, tainted) =
      taint_HaltsFor e1 (halt_cause why now) host taint ts h1
        (rw (marked, targets_marked host e.instances) t) in
    deadline_error e2 (halt_cause why now) later h2
      (taint_update-IsSound e1 host taint ts (halt_update-IsSound e why now s)) tainted
