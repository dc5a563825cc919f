-- ===== src/Master/Dispatch/Graces.antt =====
-- crates/master/src/dispatch.rs: the grace that the frames of a start carry.
use mathlib.Core.Option.{some-injective}
use mathlib.Core.Path.{subst}
use faultforge.Prelude.{
  if◌then◌else◌, ℕ, ◌≡◌, refl, ◌∙◌, String, true, false, Option, none, some, Option-cases,
  Bool-cases, inl, inr, List, [], ◌∷◌, All, All-append, get_elem?,
}
use faultforge.Prelude.Int.{ℤ}
use faultforge.Prelude.Dict.{get}
use faultforge.Fault.Params.{Params}
use faultforge.Fault.State.{InstanceState}
use faultforge.Master.Catalog
use faultforge.Master.Catalog.{Catalog, CatalogEntry}
use faultforge.Master.Sessions.{SessionMap, SessionTx, sender}
use faultforge.Master.Experiment.{
  ActionDefinition, ExperimentDefinition, InstanceRecord, ValidationFailure, Experiment,
  owning_experiment_id, is_concluded,
}
use faultforge.Master.Experiment.Mint.{mint_experiment}
use faultforge.Master.Experiment.Validate.{validate}
use faultforge.Master.Dispatch.Frames.{
  Dispatcher, ServerMessage, run_fault, abort_fault, clear_taint, deliver, send_to_host,
}
use faultforge.Master.Dispatch.Start.{
  run_fault_frame, dispatch_instance, dispatch_instances, send_run_faults, start_validated,
  start_experiment, gather_host_facts,
}
use faultforge.Master.Dispatch.Switch.{status_update, halt_update, deadline_update}
use faultforge.Master.Dispatch.Handlers.{
  with_record, handle_instance_status, handle_instance_report, handle_taint_status, halt,
  resolve_deadline,
}
use faultforge.Master.Dispatch.Store.{
  Call, starts, reports, taints, halts, expires, registers, beats, leaves, handle, run,
}

-- what a frame to run a fault carries
abbrev pub HasGrace : ℕ → ServerMessage → Type 0
HasGrace grace (run_fault r) = r.grace_secs ≡ grace
HasGrace grace (abort_fault id) = Unit {0}
HasGrace grace clear_taint = Unit {0}

deliver-HasGrace :
    (grace : ℕ) (tx : Option SessionTx) (host : String) (frame : ServerMessage)
    → HasGrace grace frame
    → All (λ s. HasGrace grace s.1) (deliver tx host frame)
unfolding deliver
deliver-HasGrace grace none host frame h = tt
deliver-HasGrace grace (some tx) host frame h = elim (Bool-cases tx.open_) [
  | inl open_ ↦ rw (open_) (h, tt)
  | inr closed ↦ rw (closed) tt
]

frame-HasGrace :
    (grace : ℕ) (i : InstanceRecord) (action : ActionDefinition) (entry : Option CatalogEntry)
    (json : Option String) (frame : ServerMessage)
    → run_fault_frame grace i action entry json ≡ some frame
    → HasGrace grace frame
unfolding run_fault_frame
frame-HasGrace grace i action none json frame h = cc
frame-HasGrace grace i action (some e) none frame h = cc
frame-HasGrace grace i action (some e) (some json) frame h =
    subst (λ m. HasGrace grace m) (some-injective _ frame h) refl

module _ (encode : Params → Option String) where
  instance-HasGrace :
      (catalog : Catalog) (sessions : SessionMap) (grace : ℕ) (i : InstanceRecord)
      (a : Option ActionDefinition)
      → All (λ s. HasGrace grace s.1) (dispatch_instance encode catalog sessions grace i a)
  unfolding dispatch_instance send_to_host
  instance-HasGrace catalog sessions grace i none = tt
  instance-HasGrace catalog sessions grace i (some a) =
      elim (Option-cases (
        run_fault_frame grace i a (Catalog.get catalog a.plugin.name a.plugin.version)
          (encode a.params))) [
            | inl none_ ↦ rw (none_, dispatch_instance) tt
            | inr (frame, built) ↦
                rw (built, dispatch_instance)
                  (deliver-HasGrace grace (sender sessions i.hostname) i.hostname frame
                    (frame-HasGrace grace i a _ _ frame built))
          ]

  instances-HasGrace :
      (catalog : Catalog) (sessions : SessionMap) (grace : ℕ) (actions : List ActionDefinition)
      (is : List InstanceRecord)
      → All (λ s. HasGrace grace s.1) (dispatch_instances encode catalog sessions grace actions is)
  unfolding dispatch_instances
  instances-HasGrace catalog sessions grace actions [] = tt
  instances-HasGrace catalog sessions grace actions (i ∷ is) =
      All-append (λ s. HasGrace grace s.1) _ _
        (instance-HasGrace catalog sessions grace i (get_elem? actions i.action_index))
        (instances-HasGrace catalog sessions grace actions is)

  started-HasGrace :
      (d : Dispatcher) (x : ExperimentDefinition) (now : ℤ) (failures : List ValidationFailure)
      → All (λ s. HasGrace d.default_grace_secs s.1) (start_validated encode d x now failures).2
  unfolding start_validated send_run_faults mint_experiment
  started-HasGrace d x now [] =
      instances-HasGrace d.catalog d.sessions d.default_grace_secs x.actions _
  started-HasGrace d x now (f ∷ failures) = tt

  -- Each frame that a start sends carries the master's grace.
  pub start-HasGrace :
      (d : Dispatcher) (x : ExperimentDefinition) (now : ℤ)
      → All (λ s. HasGrace d.default_grace_secs s.1) (start_experiment encode d x now).2
  unfolding start_experiment
  start-HasGrace d x now = started-HasGrace d x now (validate x d.catalog (gather_host_facts d x))

with_record-grace :
    (d : Dispatcher) (id : String) (update : Experiment → Experiment × List (String × String))
    → (with_record d id update).0.default_grace_secs ≡ d.default_grace_secs
unfolding with_record
with_record-grace d id update = elim (Option-cases (get id d.store)) [
  | inl missing ↦ rw (missing, with_record) refl
  | inr (e, found) ↦ rw (found, with_record) refl
]

status-grace :
    (d : Dispatcher) (id : String) (state : InstanceState) (why : String) (ts : ℤ)
    → (handle_instance_status d id state why ts).0.default_grace_secs ≡ d.default_grace_secs
unfolding handle_instance_status
status-grace d id state why ts = elim (Option-cases (owning_experiment_id id)) [
  | inl nobody ↦ rw (nobody, handle_instance_status) refl
  | inr (owner, is) ↦
      rw (is, handle_instance_status)
        (with_record-grace d owner (λ e. status_update e id state why ts))
]

report-grace :
    (d : Dispatcher) (statuses : List (String × InstanceState × String × ℤ))
    → (handle_instance_report d statuses).0.default_grace_secs ≡ d.default_grace_secs
unfolding handle_instance_report
report-grace d [] = refl
report-grace d ((id, state, why, ts) ∷ rest) =
    report-grace (handle_instance_status d id state why ts).0 rest ∙ status-grace d id state why ts

module _ (encode : Params → Option String) where
  validated-grace :
      (d : Dispatcher) (x : ExperimentDefinition) (now : ℤ) (failures : List ValidationFailure)
      → (start_validated encode d x now failures).0.default_grace_secs ≡ d.default_grace_secs
  unfolding start_validated
  validated-grace d x now [] = refl
  validated-grace d x now (f ∷ failures) = refl

  handle-grace :
      (d : Dispatcher) (c : Call) → (handle encode d c).default_grace_secs ≡ d.default_grace_secs
  unfolding handle handle_taint_status halt resolve_deadline start_experiment
  handle-grace d (starts x now) =
      validated-grace d x now (validate x d.catalog (gather_host_facts d x))
  handle-grace d (reports statuses) = report-grace d statuses
  handle-grace d (taints host true why ts) = refl
  handle-grace d (taints host false why ts) = refl
  handle-grace d (halts id why now) =
      with_record-grace d id (λ e. if is_concluded e then (e, []) else halt_update e why now)
  handle-grace d (expires id now) = with_record-grace d id (λ e. deadline_update e now)
  handle-grace d (registers host tx now) = refl
  handle-grace d (beats host now) = refl
  handle-grace d (leaves host epoch) = refl

  pub run-grace :
      (d : Dispatcher) (cs : List Call)
      → (run encode d cs).default_grace_secs ≡ d.default_grace_secs
  unfolding run
  run-grace d [] = refl
  run-grace d (c ∷ cs) = run-grace (handle encode d c) cs ∙ handle-grace d c
