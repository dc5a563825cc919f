-- ===== src/Master/Experiment/Record.antt =====
-- crates/master/src/experiment.rs: the methods of `Experiment`.
use Prim.Native.String.{◌++◌ as concat}
use text.Mathlib.Text.{◌==◌ as str_eq}
use faultforge.Prelude.{
  String, Bool, true, false, not, ◌||◌, Option, none, some, List, [], ◌∷◌, ◌++◌, if◌then◌else◌, any,
  all, find,
}
use faultforge.Prelude.Int.{ℤ}
use faultforge.Fault.State.{InstanceState, state_eq}
use faultforge.Master.Experiment.{
  Cause, ExperimentOutcome, completed, aborted, error, InstanceRecord, is_terminal, TaintedHost,
  Experiment, is_running_phase,
}

-- `Experiment::instance`
unfoldable pub instance : Experiment → String → Option InstanceRecord
instance e id = find (λ i. str_eq i.instance_id id) e.instances

-- The found record with the report, or `none` where `apply_status` returns `false`.
unfoldable pub update_instance :
    String → InstanceState → String → ℤ → List InstanceRecord → Option (List InstanceRecord)
update_instance id state reason ts [] = none
update_instance id state reason ts (r ∷ rs) =
    let rest = update_instance id state reason ts rs in
    if str_eq r.instance_id id
    then (if is_terminal r
        then none
        else some (record r { state = state; reason = reason; updated_unix_ms = ts } ∷ rs))
    else elim rest [ none ↦ none | some rs' ↦ some (r ∷ rs') ]

-- `Experiment::apply_status`: the record after it, and whether it changed
unfoldable pub apply_status : Experiment → String → InstanceState → String → ℤ → Experiment × Bool
apply_status e id state reason ts = elim (update_instance id state reason ts e.instances) [
  | none ↦ (e, false)
  | some instances ↦ (record e { instances = instances }, true)
]

-- `Experiment::record_taint`
unfoldable pub record_taint : Experiment → String → String → ℤ → Experiment
record_taint e hostname reason ts =
    if any (λ t. str_eq t.hostname hostname) e.tainted_hosts then e else record e {
      tainted_hosts =
          e.tainted_hosts ++ record { hostname = hostname; reason = reason; ts_unix_ms = ts } ∷ [];
    }

-- `Experiment::targets_host`
unfoldable pub targets_host : Experiment → String → Bool
targets_host e hostname = any (λ i. str_eq i.hostname hostname) e.instances

abbrev pub instance_cause : String → InstanceRecord → Cause
instance_cause why i = record {
  hostname = some i.hostname;
  instance_id = some i.instance_id;
  reason = concat why i.reason;
  ts_unix_ms = i.updated_unix_ms;
}

abbrev pub taint_cause : TaintedHost → Cause
taint_cause t = record {
  hostname = some t.hostname;
  instance_id = none;
  reason = concat "host TAINTED: " t.reason;
  ts_unix_ms = t.ts_unix_ms;
}

-- what one instance holds against the run: its error, or an abort that nobody asked for
abbrev trigger_of : InstanceState → Bool → InstanceRecord → Option Cause
trigger_of InstanceState.error _ i = some (instance_cause "instance ERROR: " i)
trigger_of InstanceState.aborted false i = some (instance_cause "agent-initiated abort: " i)
trigger_of _ _ _ = none

-- the `for` loop of `kill_trigger`
instances_trigger : List InstanceRecord → Option Cause
instances_trigger [] = none
instances_trigger (i ∷ is) =
    let rest = instances_trigger is in
    elim (trigger_of i.state i.abort_requested i) [ some c ↦ some c | none ↦ rest ]

abbrev first_taint : List TaintedHost → Option Cause
first_taint [] = none
first_taint (t ∷ _) = some (taint_cause t)

-- what fires the switch of a running record: its first instance that counts, or its first taint
unfoldable pub trigger_in : List InstanceRecord → List TaintedHost → Option Cause
unfolding instances_trigger
trigger_in instances tainted_hosts = elim (instances_trigger instances) [
  | some c ↦ some c
  | none ↦ first_taint tainted_hosts
]

-- `Experiment::kill_trigger`
abbrev pub kill_trigger : Experiment → Option Cause
kill_trigger e = if is_running_phase e.phase then trigger_in e.instances e.tainted_hosts else none

abbrev pub has_state : InstanceState → InstanceRecord → Bool
has_state s i = state_eq i.state s

abbrev pub any_live : List InstanceRecord → Bool
any_live = any λ i. not (is_terminal i)

unfoldable pub outcome_in : List InstanceRecord → List TaintedHost → Option ExperimentOutcome
outcome_in instances tainted_hosts =
    if any_live instances
    then none
    else if any (has_state InstanceState.error) instances
        || elim tainted_hosts [ [] ↦ false | _ ↦ true ]
    then some error
    else if all (has_state InstanceState.done) instances
    then some completed
    else some aborted

-- `Experiment::outcome`
abbrev pub outcome : Experiment → Option ExperimentOutcome
outcome e = outcome_in e.instances e.tainted_hosts

abbrev map_cause : String → Option InstanceRecord → Option Cause
map_cause why none = none
map_cause why (some i) = some (instance_cause why i)

unfoldable pub cause_in : List InstanceRecord → List TaintedHost → ExperimentOutcome → Option Cause
cause_in instances tainted_hosts completed = none
cause_in instances tainted_hosts error = elim (find (has_state InstanceState.error) instances) [
  | some i ↦ some (instance_cause "instance ERROR: " i)
  | none ↦ first_taint tainted_hosts
]
cause_in instances tainted_hosts aborted =
    map_cause "instance ABORTED: " (find (has_state InstanceState.aborted) instances)

-- `Experiment::outcome_cause`
abbrev pub outcome_cause : Experiment → ExperimentOutcome → Option Cause
outcome_cause e o = cause_in e.instances e.tainted_hosts o
