-- ===== src/Master/Dispatch/Handlers.antt =====
-- crates/master/src/dispatch.rs: the handlers of frames and of the operator's calls. Each returns the
-- new dispatcher and the frames that it delivered, in order. The time of the call is an argument.
use faultforge.Prelude.{
  String, Bool, Option, none, some, List, [], ◌∷◌, ◌++◌, if◌then◌else◌, is_some,
}
use faultforge.Prelude.Int.{ℤ}
use faultforge.Prelude.Dict.{get, insert}
use faultforge.Fault.State.{InstanceState}
use faultforge.Master.Registry.{set_taint}
use faultforge.Master.Experiment.{Experiment, is_concluded, owning_experiment_id}
use faultforge.Master.Dispatch.Switch.{status_update, taint_update, halt_update, deadline_update}
use faultforge.Master.Dispatch.Frames.{clear_taint, Dispatcher, Sent, send_to_host, send_aborts}

-- the record of one experiment rewritten, and the aborts of the rewrite sent
unfoldable pub with_record :
    Dispatcher
    → String
    → (Experiment → Experiment × List (String × String))
    → Dispatcher × List Sent
with_record d id update = elim (get id d.store) [
  | none ↦ (d, [])
  | some e ↦
      let (e', aborts) = update e in
      (record d { store = insert id e' d.store }, send_aborts d.sessions aborts)
]

unfoldable pub handle_instance_status :
    Dispatcher → String → InstanceState → String → ℤ → Dispatcher × List Sent
handle_instance_status d id state reason ts = elim (owning_experiment_id id) [
  | none ↦ (d, [])
  | some owner ↦ with_record d owner (λ e. status_update e id state reason ts)
]

unfoldable pub handle_instance_report :
    Dispatcher → List (String × InstanceState × String × ℤ) → Dispatcher × List Sent
handle_instance_report d [] = (d, [])
handle_instance_report d ((id, state, reason, ts) ∷ statuses) =
    let (d', sent) = handle_instance_status d id state reason ts in
    let (d'', more) = handle_instance_report d' statuses in (d'', sent ++ more)

-- the loop over the store; the order of a `HashMap`'s values is the list's order
unfoldable pub taint_store :
    List (String × Experiment)
    → String
    → String
    → ℤ
    → List (String × Experiment) × List (String × String)
taint_store [] hostname reason ts = ([], [])
taint_store ((id, e) ∷ store) hostname reason ts =
    let (e', aborts) = taint_update e hostname reason ts in
    let (store', more) = taint_store store hostname reason ts in ((id, e') ∷ store', aborts ++ more)

unfoldable pub handle_taint_status :
    Dispatcher → String → Bool → String → ℤ → Dispatcher × List Sent
unfolding taint_store
handle_taint_status d hostname tainted reason ts =
    let d' = record d { registry = set_taint d.registry hostname tainted } in
    if tainted
    then (let (store, aborts) = taint_store d.store hostname reason ts in
        (record d' { store = store }, send_aborts d.sessions aborts))
    else (d', [])

pub data HaltOutcome : Type 0 where
  not_found already_concluded halt_accepted : HaltOutcome

unfoldable pub halt_outcome : Option Experiment → HaltOutcome
halt_outcome none = not_found
halt_outcome (some e) = if is_concluded e then already_concluded else halt_accepted

unfoldable pub halt : Dispatcher → String → String → ℤ → Dispatcher × HaltOutcome × List Sent
unfolding halt_outcome
halt d id reason now_ms =
    let (d', sent) =
      with_record d id (λ e. if is_concluded e then (e, []) else halt_update e reason now_ms) in
    (d', halt_outcome (get id d.store), sent)

unfoldable pub resolve_deadline : Dispatcher → String → ℤ → Dispatcher × List Sent
resolve_deadline d id now_ms = with_record d id (λ e. deadline_update e now_ms)

pub data ClearTaintOutcome : Type 0 where
  unknown_host not_connected sent_ : ClearTaintOutcome

unfoldable pub relayed : List Sent → ClearTaintOutcome
relayed [] = not_connected
relayed (_ ∷ _) = sent_

unfoldable pub relay_clear_taint : Dispatcher → String → ClearTaintOutcome × List Sent
unfolding relayed
relay_clear_taint d hostname =
    let frames = send_to_host d.sessions hostname clear_taint in
    if is_some (get hostname d.registry) then (relayed frames, frames) else (unknown_host, [])

unfoldable pub get_experiment : Dispatcher → String → Option Experiment
get_experiment d id = get id d.store
