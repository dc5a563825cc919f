-- ===== src/Master/Dispatch/Store.antt =====
-- The dispatcher over any sequence of frames, operator calls, deadlines and reconnects.
use faultforge.Prelude.{
  ℕ, ◌≡◌, refl, String, Bool, true, false, Option, some, List, [], ◌∷◌, All, Option-cases,
  Bool-cases, inl, inr, if◌then◌else◌, ◌∙◌, eq_refl,
}
use faultforge.Prelude.Int.{ℤ}
use faultforge.Prelude.Dict.{get, get-insert, All-insert, All-get}
use faultforge.Fault.Params.{Params}
use faultforge.Fault.State.{InstanceState}
use faultforge.Master.Registry.{register_agent, update_heartbeat}
use faultforge.Master.Sessions.{SessionTx, insert_session, remove_if_current}
use faultforge.Master.Experiment.{
  ExperimentDefinition, ValidationFailure, Experiment, is_concluded, owning_experiment_id,
}
use faultforge.Master.Experiment.Validate.{validate}
use faultforge.Master.Dispatch.Switch.{status_update, halt_update, deadline_update}
use faultforge.Master.Dispatch.Handled.{
  IsSound, status_update-IsSound, taint_update-IsSound, halt_update-IsSound, deadline_concludes,
}
use faultforge.Master.Dispatch.Accept.{minted-IsSound}
use faultforge.Master.Dispatch.Frames.{Dispatcher}
use faultforge.Master.Dispatch.Start.{start_experiment, gather_host_facts}
use faultforge.Master.Dispatch.Handlers.{
  with_record, handle_instance_status, handle_instance_report, handle_taint_status, taint_store,
  halt, resolve_deadline,
}

abbrev pub IsSoundStore : List (String × Experiment) → Type 0
IsSoundStore = All λ p. IsSound p.1

with_record-IsSoundStore :
    (d : Dispatcher) (id : String) (update : Experiment → Experiment × List (String × String))
    → ((e : Experiment) → IsSound e → IsSound (update e).0)
    → IsSoundStore d.store
    → IsSoundStore (with_record d id update).0.store
unfolding with_record
with_record-IsSoundStore d id update keep all = elim (Option-cases (get id d.store)) [
  | inl missing ↦ rw (missing, with_record) all
  | inr (e, found) ↦
      rw (found, with_record)
        (All-insert IsSound id (update e).0 d.store
          (keep e (All-get IsSound id e d.store all found)) all)
]

status-IsSoundStore :
    (d : Dispatcher) (id : String) (state : InstanceState) (why : String) (ts : ℤ)
    → IsSoundStore d.store
    → IsSoundStore (handle_instance_status d id state why ts).0.store
unfolding handle_instance_status
status-IsSoundStore d id state why ts all = elim (Option-cases (owning_experiment_id id)) [
  | inl nobody ↦ rw (nobody, handle_instance_status) all
  | inr (owner, is) ↦
      rw (is, handle_instance_status)
        (with_record-IsSoundStore d owner (λ e. status_update e id state why ts)
          (status_update-IsSound id state why ts) all)
]

report-IsSoundStore :
    (d : Dispatcher) (statuses : List (String × InstanceState × String × ℤ))
    → IsSoundStore d.store
    → IsSoundStore (handle_instance_report d statuses).0.store
unfolding handle_instance_report
report-IsSoundStore d [] all = all
report-IsSoundStore d ((id, state, why, ts) ∷ rest) all =
    report-IsSoundStore (handle_instance_status d id state why ts).0 rest
      (status-IsSoundStore d id state why ts all)

taint_store-IsSoundStore :
    (store : List (String × Experiment)) (host why : String) (ts : ℤ)
    → IsSoundStore store
    → IsSoundStore (taint_store store host why ts).0
unfolding taint_store
taint_store-IsSoundStore [] host why ts all = tt
taint_store-IsSoundStore ((id, e) ∷ store) host why ts (v, all) =
    (taint_update-IsSound e host why ts v, taint_store-IsSoundStore store host why ts all)

taint-IsSoundStore :
    (d : Dispatcher) (host : String) (tainted : Bool) (why : String) (ts : ℤ)
    → IsSoundStore d.store
    → IsSoundStore (handle_taint_status d host tainted why ts).0.store
unfolding handle_taint_status
taint-IsSoundStore d host true why ts all = taint_store-IsSoundStore d.store host why ts all
taint-IsSoundStore d host false why ts all = all

halt-IsSoundStore :
    (d : Dispatcher) (id why : String) (now : ℤ)
    → IsSoundStore d.store
    → IsSoundStore (halt d id why now).0.store
unfolding halt
halt-IsSoundStore d id why now all =
    with_record-IsSoundStore d id (λ e. if is_concluded e then (e, []) else halt_update e why now)
      (λ e v. elim (Bool-cases (is_concluded e)) [
        | inl c ↦ rw c v
        | inr o ↦ rw o (halt_update-IsSound e why now v)
      ])
      all

start-IsSoundStore :
    (encode : Params → Option String) (d : Dispatcher) (definition : ExperimentDefinition) (now : ℤ)
    → IsSoundStore d.store
    → IsSoundStore (start_experiment encode d definition now).0.store
unfolding start_experiment
start-IsSoundStore encode d definition now all =
    go (validate definition d.catalog (gather_host_facts d definition)) refl
  where
    go :
        (failures : List ValidationFailure)
        → validate definition d.catalog (gather_host_facts d definition) ≡ failures
        → IsSoundStore (start_experiment encode d definition now).0.store
    go [] e =
        rw (e, start_experiment)
          (All-insert IsSound _ _ d.store (minted-IsSound d definition now e).0 all)
    go (f ∷ failures) e = rw (e, start_experiment) all

-- What can happen to a dispatcher.
pub data Call : Type 0 where
  starts : ExperimentDefinition → ℤ → Call
  reports : List (String × InstanceState × String × ℤ) → Call
  taints : (hostname : String) → Bool → String → ℤ → Call
  halts : (id reason : String) → ℤ → Call
  expires : (id : String) → ℤ → Call
  registers : (hostname : String) → SessionTx → ℤ → Call
  beats : (hostname : String) → ℤ → Call
  leaves : (hostname : String) (epoch : ℕ) → Call

module _ (encode : Params → Option String) where
  unfoldable pub handle : Dispatcher → Call → Dispatcher
  handle d (starts definition now) = (start_experiment encode d definition now).0
  handle d (reports statuses) = (handle_instance_report d statuses).0
  handle d (taints hostname tainted why ts) = (handle_taint_status d hostname tainted why ts).0
  handle d (halts id why now) = (halt d id why now).0
  handle d (expires id now) = (resolve_deadline d id now).0
  handle d (registers hostname tx now) = record d {
    registry = register_agent d.registry hostname now;
    sessions = (insert_session d.sessions hostname tx).0;
  }
  handle d (beats hostname now) = record d { registry = update_heartbeat d.registry hostname now }
  handle d (leaves hostname epoch) = record d {
    sessions = remove_if_current d.sessions hostname epoch;
  }

  unfoldable pub run : Dispatcher → List Call → Dispatcher
  run d [] = d
  run d (c ∷ cs) = run (handle d c) cs

  pub handle-IsSoundStore :
      (d : Dispatcher) (c : Call) → IsSoundStore d.store → IsSoundStore (handle d c).store
  unfolding handle resolve_deadline
  handle-IsSoundStore d (starts definition now) all = start-IsSoundStore encode d definition now all
  handle-IsSoundStore d (reports statuses) all = report-IsSoundStore d statuses all
  handle-IsSoundStore d (taints host tainted why ts) all =
      taint-IsSoundStore d host tainted why ts all
  handle-IsSoundStore d (halts id why now) all = halt-IsSoundStore d id why now all
  handle-IsSoundStore d (expires id now) all =
      with_record-IsSoundStore d id (λ e. deadline_update e now)
        (λ e v. (deadline_concludes e now v).1) all
  handle-IsSoundStore d (registers host tx now) all = all
  handle-IsSoundStore d (beats host now) all = all
  handle-IsSoundStore d (leaves host epoch) all = all

  -- Whatever calls a dispatcher takes, from a store of sound records on, its records stay sound:
  -- the instance ids differ; a running record has no cause, nobody was asked to abort, and
  -- nothing triggers the switch; a halting one has a cause, and every live instance was asked; an
  -- open one has an outcome still to come; a concluded one has the outcome of its instances, and
  -- a cause unless it COMPLETED.
  pub run-IsSoundStore :
      (d : Dispatcher) (cs : List Call) → IsSoundStore d.store → IsSoundStore (run d cs).store
  unfolding run
  run-IsSoundStore d [] all = all
  run-IsSoundStore d (c ∷ cs) all = run-IsSoundStore (handle d c) cs (handle-IsSoundStore d c all)

-- Where a sound store has an experiment, resolving its deadline leaves its record concluded.
pub resolve_concludes :
    (d : Dispatcher) (id : String) (now : ℤ) (e : Experiment)
    → IsSoundStore d.store
    → get id d.store ≡ some e
    → (e' : Experiment) × (get id (resolve_deadline d id now).0.store ≡ some e')
      × (is_concluded e' ≡ true)
unfolding resolve_deadline with_record
resolve_concludes d id now e all found = (
  (deadline_update e now).0,
  rw (found, with_record) (get-insert id id (deadline_update e now).0 d.store ∙ rw (eq_refl id)),
  (deadline_concludes e now (All-get IsSound id e d.store all found)).0,
)
