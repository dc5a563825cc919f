-- ===== src/Master/Dispatch/Concluded.antt =====
-- crates/master/src/dispatch.rs: a record that is concluded, from one call to the next.
use text.Mathlib.Text.{◌==◌ as str_eq}
use text.Mathlib.TextEquality.{eq_iff}
use faultforge.Prelude.{
  ◌≡◌, ◌≢◌, String, Bool, none, true, false, Option, some, Option-cases, Bool-cases, inl, inr, List,
  [], ◌∷◌, if◌then◌else◌, arith,
}
use faultforge.Prelude.Int.{ℤ}
use faultforge.Prelude.Dict.{get, insert, get-insert}
use faultforge.Fault.Params.{Params}
use faultforge.Fault.State.{InstanceState}
use faultforge.Master.Experiment.{
  ExperimentDefinition, ValidationFailure, Experiment, owning_experiment_id, is_concluded, mint_id,
}
use faultforge.Master.Experiment.Record.{apply_status, update_instance, kill_trigger}
use faultforge.Master.Experiment.Validate.{validate}
use faultforge.Master.Dispatch.Frames.{Dispatcher}
use faultforge.Master.Dispatch.Start.{start_experiment, start_validated, gather_host_facts}
use faultforge.Master.Dispatch.Switch.{
  status_update, halt_update, deadline_update, taint_update, react_to_update, fire_kill_switch,
  conclude_if_done,
}
use faultforge.Master.Dispatch.Handlers.{
  with_record, handle_instance_status, handle_instance_report, taint_store, handle_taint_status,
  halt, resolve_deadline,
}
use faultforge.Master.Dispatch.Store.{
  Call, starts, reports, taints, halts, expires, registers, beats, leaves, handle, run,
}

abbrev pub is_concluded_entry : Option Experiment → Bool
is_concluded_entry none = false
is_concluded_entry (some e) = is_concluded e

abbrev pub HasConcluded : String → List (String × Experiment) → Type 0
HasConcluded k store = is_concluded_entry (get k store) ≡ true

react-concluded :
    (e : Experiment) → is_concluded e ≡ true → is_concluded (react_to_update e).0 ≡ true
unfolding react_to_update fire_kill_switch conclude_if_done
react-concluded e c = elim (Option-cases (kill_trigger e)) [
  | inl quiet ↦ rw (quiet, react_to_update) (rw (c) c)
  | inr (cause, fires) ↦ rw (fires, react_to_update) (rw (c) (rw (c) c))
]

status-concluded :
    (e : Experiment) (id : String) (state : InstanceState) (why : String) (ts : ℤ)
    → is_concluded e ≡ true
    → is_concluded (status_update e id state why ts).0 ≡ true
unfolding status_update apply_status
status-concluded e id state why ts c =
    elim (Option-cases (update_instance id state why ts e.instances)) [
      | inl same ↦ rw (same, apply_status, status_update) c
      | inr (is, found) ↦
          rw (found, apply_status, status_update) (react-concluded (record e { instances = is }) c)
    ]

insert-concluded :
    (k j : String) (e old : Experiment) (store : List (String × Experiment))
    → get j store ≡ some old
    → (is_concluded old ≡ true → is_concluded e ≡ true)
    → HasConcluded k store
    → HasConcluded k (insert j e store)
insert-concluded k j e old store found stays h =
    rw (get-insert j k e store) (elim (Bool-cases (str_eq j k)) [
      | inl same ↦ rw (same) (stays (ground (arith, eq_iff j k)))
      | inr other ↦ rw (other) h
    ])

with_record-concluded :
    (k : String) (d : Dispatcher) (id : String)
    (update : Experiment → Experiment × List (String × String))
    → ((e : Experiment) → is_concluded e ≡ true → is_concluded (update e).0 ≡ true)
    → HasConcluded k d.store
    → HasConcluded k (with_record d id update).0.store
unfolding with_record
with_record-concluded k d id update stays h = elim (Option-cases (get id d.store)) [
  | inl missing ↦ rw (missing, with_record) h
  | inr (e, found) ↦
      rw (found, with_record) (insert-concluded k id (update e).0 e d.store found (stays e) h)
]

report-concluded :
    (k : String) (d : Dispatcher) (statuses : List (String × InstanceState × String × ℤ))
    → HasConcluded k d.store
    → HasConcluded k (handle_instance_report d statuses).0.store
unfolding handle_instance_report handle_instance_status
report-concluded k d [] h = h
report-concluded k d ((id, state, why, ts) ∷ rest) h =
    report-concluded k (handle_instance_status d id state why ts).0 rest
      (elim (Option-cases (owning_experiment_id id)) [
        | inl nobody ↦ rw (nobody, handle_instance_status) h
        | inr (owner, is) ↦
            rw (is, handle_instance_status)
              (with_record-concluded k d owner (λ e. status_update e id state why ts)
                (λ e c. status-concluded e id state why ts c) h)
      ])

taint_store-concluded :
    (k : String) (store : List (String × Experiment)) (host why : String) (ts : ℤ)
    → HasConcluded k store
    → HasConcluded k (taint_store store host why ts).0
unfolding taint_store get taint_update
taint_store-concluded k [] host why ts h = h
taint_store-concluded k ((id, e) ∷ store) host why ts h = elim (Bool-cases (str_eq id k)) [
  | inl same ↦ let c : is_concluded e ≡ true = rw same at h in rw (same) (rw (c) c)
  | inr other ↦ rw (other) (taint_store-concluded k store host why ts (rw other at h))
]

abbrev DiffersIn : String → Dispatcher → Call → Type 0
DiffersIn id d (starts x now) = mint_id now d.seq ≢ id
DiffersIn id d _ = Unit

module _ (encode : Params → Option String) where
  -- No start of these calls mints this id. (The counter in an id wraps at 64 bits, and the time may go
  -- back.)
  abbrev pub IsUnminted : String → Dispatcher → List Call → Type 0
  IsUnminted id d [] = Unit
  IsUnminted id d (c ∷ cs) = DiffersIn id d c × IsUnminted id (handle encode d c) cs

  start-concluded :
      (k : String) (d : Dispatcher) (x : ExperimentDefinition) (now : ℤ)
      (failures : List ValidationFailure)
      → mint_id now d.seq ≢ k
      → HasConcluded k d.store
      → HasConcluded k (start_validated encode d x now failures).0.store
  unfolding start_validated
  start-concluded k d x now [] fresh h =
      rw (get-insert (mint_id now d.seq) k _ d.store) (ground (arith, eq_iff (mint_id now d.seq) k))
  start-concluded k d x now (f ∷ failures) fresh h = h

  halt-concluded :
      (why : String) (now : ℤ) (e : Experiment)
      → is_concluded e ≡ true
      → is_concluded ((if is_concluded e then (e, []) else halt_update e why now).0) ≡ true
  halt-concluded why now e c = rw (c) c

  deadline-concluded :
      (now : ℤ) (e : Experiment)
      → is_concluded e ≡ true
      → is_concluded (deadline_update e now).0 ≡ true
  unfolding deadline_update
  deadline-concluded now e c = rw (c) c

  handle-concluded :
      (k : String) (d : Dispatcher) (c : Call)
      → DiffersIn k d c
      → HasConcluded k d.store
      → HasConcluded k (handle encode d c).store
  unfolding handle handle_taint_status halt resolve_deadline start_experiment
  handle-concluded k d (starts x now) fresh h =
      start-concluded k d x now (validate x d.catalog (gather_host_facts d x)) fresh h
  handle-concluded k d (reports statuses) u h = report-concluded k d statuses h
  handle-concluded k d (taints host true why ts) u h = taint_store-concluded k d.store host why ts h
  handle-concluded k d (taints host false why ts) u h = h
  handle-concluded k d (halts id why now) u h =
      with_record-concluded k d id (λ e. if is_concluded e then (e, []) else halt_update e why now)
        (λ e c. halt-concluded why now e c) h
  handle-concluded k d (expires id now) u h =
      with_record-concluded k d id (λ e. deadline_update e now) (λ e c. deadline-concluded now e c)
        h
  handle-concluded k d (registers host tx now) u h = h
  handle-concluded k d (beats host now) u h = h
  handle-concluded k d (leaves host epoch) u h = h

  pub run-concluded :
      (k : String) (d : Dispatcher) (cs : List Call)
      → IsUnminted k d cs
      → HasConcluded k d.store
      → HasConcluded k (run encode d cs).store
  unfolding run
  run-concluded k d [] u h = h
  run-concluded k d (c ∷ cs) (fresh, u) h =
      run-concluded k (handle encode d c) cs u (handle-concluded k d c fresh h)
