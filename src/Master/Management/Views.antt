-- ===== src/Master/Management/Views.antt =====
-- crates/master/src/management.rs: the views of the management API, which axum sends as JSON.
use Prim.Native.String.{◌++◌ as cat}
use faultforge.Prelude.{ℕ, String, Bool, Option, none, some, List, map, length}
use faultforge.Prelude.Int.{ℤ}
use faultforge.Prelude.Decimal.{show}
use faultforge.Fault.State.{InstanceState}
use faultforge.Master.Registry.{AgentInfo}
use faultforge.Master.Experiment.{
  ValidationFailure, no_actions, no_hosts, zero_duration, unknown_plugin, invalid_params,
  duration_over_max, hostname_not_id_safe, duplicate_host, host_unknown, host_disconnected,
  host_tainted, Cause, ExperimentOutcome, completed, aborted, error, ExperimentPhase, running,
  halting, concluded, InstanceRecord, Experiment,
}

pub record AgentView : Type 0 where
  pub hostname : String
  pub name : String
  pub last_seen_unix_ms : ℤ
  pub tainted : Bool

abbrev pub agent_view : AgentInfo → AgentView
agent_view info = record {
  hostname = info.hostname;
  name = info.name;
  last_seen_unix_ms = info.last_seen;
  tainted = info.tainted;
}

pub record CauseView : Type 0 where
  pub hostname : Option String
  pub instance_id : Option String
  pub reason : String
  pub ts_unix_ms : ℤ

pub record InstanceView : Type 0 where
  pub instance_id : String
  pub hostname : String
  pub action_index : ℕ
  pub state : InstanceState
  pub reason : String
  pub updated_unix_ms : ℤ

pub record ExperimentView : Type 0 where
  pub id : String
  pub name : String
  pub state : String
  pub outcome : Option String
  pub grace_secs : ℕ
  pub started_unix_ms : ℤ
  pub deadline_unix_ms : ℤ
  pub cause : Option CauseView
  pub instances : List InstanceView

pub record SummaryView : Type 0 where
  pub id : String
  pub name : String
  pub state : String
  pub outcome : Option String
  pub started_unix_ms : ℤ
  pub instances : ℕ

abbrev pub outcome_label : ExperimentOutcome → String
outcome_label completed = "COMPLETED"
outcome_label aborted = "ABORTED"
outcome_label error = "ERROR"

abbrev pub phase_labels : ExperimentPhase → String × Option String
phase_labels running = ("RUNNING", none)
phase_labels halting = ("HALTING", none)
phase_labels (concluded outcome) = (outcome_label outcome, some (outcome_label outcome))

abbrev pub cause_view : Cause → CauseView
cause_view c = record {
  hostname = c.hostname;
  instance_id = c.instance_id;
  reason = c.reason;
  ts_unix_ms = c.ts_unix_ms;
}

abbrev pub instance_view : InstanceRecord → InstanceView
instance_view i = record {
  instance_id = i.instance_id;
  hostname = i.hostname;
  action_index = i.action_index;
  state = i.state;
  reason = i.reason;
  updated_unix_ms = i.updated_unix_ms;
}

abbrev cause_views : Option Cause → Option CauseView
cause_views none = none
cause_views (some c) = some (cause_view c)

unfoldable pub experiment_view : Experiment → ExperimentView
experiment_view e = record {
  id = e.id;
  name = e.definition.name;
  state = (phase_labels e.phase).0;
  outcome = (phase_labels e.phase).1;
  grace_secs = e.grace_secs;
  started_unix_ms = e.started_unix_ms;
  deadline_unix_ms = e.deadline_unix_ms;
  cause = cause_views e.cause;
  instances = map instance_view e.instances;
}

unfoldable pub experiment_summary : Experiment → SummaryView
experiment_summary e = record {
  id = e.id;
  name = e.definition.name;
  state = (phase_labels e.phase).0;
  outcome = (phase_labels e.phase).1;
  started_unix_ms = e.started_unix_ms;
  instances = length e.instances;
}

abbrev at : ℕ → String → String
at action what = cat "action " (cat (show action) (cat ": " what))

-- `Display` of `ValidationFailure`
unfoldable pub show_failure : ValidationFailure → String
show_failure no_actions = "experiment has no actions"
show_failure (no_hosts a) = at a "no target hosts"
show_failure (unknown_plugin a n v) = at a (cat "unknown plugin " (cat n (cat "@" v)))
show_failure (invalid_params a why) = at a (cat "invalid params: " why)
show_failure (zero_duration a) = at a "duration_secs must be greater than 0"
show_failure (duration_over_max a d m) =
    at a (
      cat "duration " (cat (show d) (cat "s exceeds plugin max_duration_secs " (cat (show m) "s"))))
show_failure (hostname_not_id_safe a h) =
    at a (cat "hostname '" (cat h "' is outside the instance-id charset"))
show_failure (duplicate_host a h) = at a (cat "duplicate host '" (cat h "'"))
show_failure (host_unknown a h) = at a (cat "host '" (cat h "' is not registered"))
show_failure (host_disconnected a h) = at a (cat "host '" (cat h "' has no live session"))
show_failure (host_tainted a h) = at a (cat "host '" (cat h "' is TAINTED"))
