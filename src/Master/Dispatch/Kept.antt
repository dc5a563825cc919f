-- ===== src/Master/Dispatch/Kept.antt =====
-- crates/master/src/dispatch.rs: the ids of the store from one call to the next.
use text.Mathlib.Text.{◌==◌ as str_eq}
use faultforge.Prelude.{
  ◌≡◌, refl, String, true, false, Option, is_some, Option-cases, Bool-cases, inl, inr, List, [],
  ◌∷◌, ◌++◌, if◌then◌else◌, arith,
}
use faultforge.Prelude.Int.{ℤ}
use faultforge.Prelude.Dict.{get, insert, get-insert}
use faultforge.Fault.Params.{Params}
use faultforge.Fault.State.{InstanceState}
use faultforge.Master.Experiment.{
  ExperimentDefinition, ValidationFailure, Experiment, owning_experiment_id, is_concluded,
}
use faultforge.Master.Experiment.Validate.{validate}
use faultforge.Master.Dispatch.Frames.{Dispatcher}
use faultforge.Master.Dispatch.Start.{start_experiment, start_validated, gather_host_facts}
use faultforge.Master.Dispatch.Switch.{status_update, halt_update, deadline_update}
use faultforge.Master.Dispatch.Handlers.{
  with_record, handle_instance_status, handle_instance_report, taint_store, handle_taint_status,
  halt, resolve_deadline,
}
use faultforge.Master.Dispatch.Store.{
  Call, starts, reports, taints, halts, expires, registers, beats, leaves, handle, run,
}

abbrev pub HasEntry : String → List (String × Experiment) → Type 0
HasEntry k store = is_some (get k store) ≡ true

insert_keeps :
    (k j : String) (e : Experiment) (store : List (String × Experiment))
    → HasEntry k store
    → HasEntry k (insert j e store)
insert_keeps k j e store h = rw (get-insert j k e store) (ground arith)

with_record_keeps :
    (k : String) (d : Dispatcher) (id : String)
    (update : Experiment → Experiment × List (String × String))
    → HasEntry k d.store
    → HasEntry k (with_record d id update).0.store
unfolding with_record
with_record_keeps k d id update h = elim (Option-cases (get id d.store)) [
  | inl missing ↦ rw (missing, with_record) h
  | inr (e, found) ↦ rw (found, with_record) (insert_keeps k id (update e).0 d.store h)
]

status_keeps :
    (k : String) (d : Dispatcher) (id : String) (state : InstanceState) (why : String) (ts : ℤ)
    → HasEntry k d.store
    → HasEntry k (handle_instance_status d id state why ts).0.store
unfolding handle_instance_status
status_keeps k d id state why ts h = elim (Option-cases (owning_experiment_id id)) [
  | inl nobody ↦ rw (nobody, handle_instance_status) h
  | inr (owner, is) ↦
      rw (is, handle_instance_status)
        (with_record_keeps k d owner (λ e. status_update e id state why ts) h)
]

report_keeps :
    (k : String) (d : Dispatcher) (statuses : List (String × InstanceState × String × ℤ))
    → HasEntry k d.store
    → HasEntry k (handle_instance_report d statuses).0.store
unfolding handle_instance_report
report_keeps k d [] h = h
report_keeps k d ((id, state, why, ts) ∷ rest) h =
    report_keeps k (handle_instance_status d id state why ts).0 rest
      (status_keeps k d id state why ts h)

taint_store_keeps :
    (k : String) (store : List (String × Experiment)) (host why : String) (ts : ℤ)
    → HasEntry k store
    → HasEntry k (taint_store store host why ts).0
unfolding taint_store get
taint_store_keeps k [] host why ts h = h
taint_store_keeps k ((id, e) ∷ store) host why ts h = elim (Bool-cases (str_eq id k)) [
  | inl same ↦ rw (same) refl
  | inr other ↦ rw (other) (taint_store_keeps k store host why ts (rw other at h))
]

module _ (encode : Params → Option String) where
  start_keeps :
      (k : String) (d : Dispatcher) (x : ExperimentDefinition) (now : ℤ)
      (failures : List ValidationFailure)
      → HasEntry k d.store
      → HasEntry k (start_validated encode d x now failures).0.store
  unfolding start_validated
  start_keeps k d x now [] h = insert_keeps k _ _ d.store h
  start_keeps k d x now (f ∷ failures) h = h

  handle_keeps :
      (k : String) (d : Dispatcher) (c : Call)
      → HasEntry k d.store
      → HasEntry k (handle encode d c).store
  unfolding handle handle_taint_status halt resolve_deadline start_experiment
  handle_keeps k d (starts x now) h =
      start_keeps k d x now (validate x d.catalog (gather_host_facts d x)) h
  handle_keeps k d (reports statuses) h = report_keeps k d statuses h
  handle_keeps k d (taints host true why ts) h = taint_store_keeps k d.store host why ts h
  handle_keeps k d (taints host false why ts) h = h
  handle_keeps k d (halts id why now) h =
      with_record_keeps k d id (λ e. if is_concluded e then (e, []) else halt_update e why now) h
  handle_keeps k d (expires id now) h = with_record_keeps k d id (λ e. deadline_update e now) h
  handle_keeps k d (registers host tx now) h = h
  handle_keeps k d (beats host now) h = h
  handle_keeps k d (leaves host epoch) h = h

  pub run_keeps :
      (k : String) (d : Dispatcher) (cs : List Call)
      → HasEntry k d.store
      → HasEntry k (run encode d cs).store
  unfolding run
  run_keeps k d [] h = h
  run_keeps k d (c ∷ cs) h = run_keeps k (handle encode d c) cs (handle_keeps k d c h)

  pub run-append :
      (d : Dispatcher) (cs ds : List Call)
      → run encode d (cs ++ ds) ≡ run encode (run encode d cs) ds
  unfolding run
  run-append d [] ds = refl
  run-append d (c ∷ cs) ds = run-append (handle encode d c) cs ds
