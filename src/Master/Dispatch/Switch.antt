-- ===== src/Master/Dispatch/Switch.antt =====
-- crates/master/src/dispatch.rs: the kill-switch, the conclusion of a record, and the part of each
-- handler that runs on one record under the store lock.
use Prim.Native.String.{◌++◌ as concat}
use faultforge.Prelude.{
  String, Bool, true, not, ◌&&◌, Option, none, some, List, [], ◌∷◌, if◌then◌else◌,
}
use faultforge.Prelude.Int.{ℤ}
use faultforge.Fault.State.{InstanceState}
use faultforge.Master.Experiment.{
  Cause, ExperimentOutcome, halting, concluded, InstanceRecord, is_terminal, Experiment,
  is_concluded,
}
use faultforge.Master.Experiment.Record.{
  apply_status, record_taint, targets_host, kill_trigger, outcome, outcome_cause,
}

-- the filter of `fire_kill_switch`
abbrev pub is_asked : InstanceRecord → Bool
is_asked i = not (is_terminal i) && not i.abort_requested

-- the instances with the requests marked
unfoldable pub mark_requested : List InstanceRecord → List InstanceRecord
mark_requested [] = []
mark_requested (i ∷ is) =
    let rest = mark_requested is in
    if is_asked i then record i { abort_requested = true } ∷ rest else i ∷ rest

-- the collected abort targets
unfoldable pub abort_targets : List InstanceRecord → List (String × String)
abort_targets [] = []
abort_targets (i ∷ is) =
    let rest = abort_targets is in if is_asked i then (i.hostname, i.instance_id) ∷ rest else rest

abbrev pub or_cause : Option Cause → Option Cause → Option Cause
or_cause (some c) _ = some c
or_cause none c = c

unfoldable pub fire_kill_switch : Experiment → Cause → Experiment × List (String × String)
fire_kill_switch e cause = if is_concluded e then (e, []) else (
  record e {
    cause = or_cause e.cause (some cause);
    phase = halting;
    instances = mark_requested e.instances;
  },
  abort_targets e.instances,
)

conclude_as : Experiment → Option ExperimentOutcome → Experiment
conclude_as e none = e
conclude_as e (some o) = record e {
  cause = or_cause e.cause (outcome_cause e o);
  phase = concluded o;
}

unfoldable pub conclude_if_done : Experiment → Experiment
unfolding conclude_as
conclude_if_done e = if is_concluded e then e else conclude_as e (outcome e)

fire_on : Experiment → Option Cause → Experiment × List (String × String)
fire_on e none = (e, [])
fire_on e (some cause) = fire_kill_switch e cause

unfoldable pub react_to_update : Experiment → Experiment × List (String × String)
unfolding fire_on
react_to_update e = let (e', aborts) = fire_on e (kill_trigger e) in (conclude_if_done e', aborts)

-- `handle_instance_status` on the owning record
unfoldable pub status_update :
    Experiment → String → InstanceState → String → ℤ → Experiment × List (String × String)
status_update e id state reason ts =
    let (e', changed) = apply_status e id state reason ts in
    if changed then react_to_update e' else (e, [])

-- `handle_taint_status` on each record
unfoldable pub taint_update : Experiment → String → String → ℤ → Experiment × List (String × String)
taint_update e hostname reason ts =
    if is_concluded e
    then (e, [])
    else if targets_host e hostname
    then react_to_update (record_taint e hostname reason ts)
    else (e, [])

abbrev pub halt_cause : String → ℤ → Cause
halt_cause reason now_ms = record {
  hostname = none;
  instance_id = none;
  reason = concat "operator halt: " reason;
  ts_unix_ms = now_ms;
}

-- `halt` on a record that is not concluded
unfoldable pub halt_update : Experiment → String → ℤ → Experiment × List (String × String)
halt_update e reason now_ms =
    let (e', aborts) = fire_kill_switch e (halt_cause reason now_ms) in
    (conclude_if_done e', aborts)

-- the unresolved instances of `resolve_deadline`
unfoldable pub unresolved : List InstanceRecord → List (String × String)
unresolved [] = []
unresolved (i ∷ is) =
    let rest = unresolved is in if is_terminal i then rest else (i.hostname, i.instance_id) ∷ rest

abbrev pub deadline_reason : String
deadline_reason = "unresolved at experiment deadline"

abbrev pub deadline_cause : ℤ → List (String × String) → Option Cause
deadline_cause now_ms [] = none
deadline_cause now_ms ((hostname, instance_id) ∷ _) = some (record {
  hostname = some hostname;
  instance_id = some instance_id;
  reason = deadline_reason;
  ts_unix_ms = now_ms;
})

-- the loop that marks the unresolved instances `ERROR`
unfoldable pub expire : Experiment → ℤ → List (String × String) → Experiment
expire e now_ms [] = e
expire e now_ms ((_, id) ∷ rest) =
    expire (apply_status e id InstanceState.error deadline_reason now_ms).0 now_ms rest

-- `resolve_deadline` on the record
unfoldable pub deadline_update : Experiment → ℤ → Experiment × List (String × String)
deadline_update e now_ms =
    if is_concluded e
    then (e, [])
    else let late = unresolved e.instances in
      let e' = record e { cause = or_cause e.cause (deadline_cause now_ms late) } in
      (conclude_if_done (expire e' now_ms late), late)
