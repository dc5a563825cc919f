-- ===== src/Cli/Link.antt =====
-- The command line and the management API together. A `Link` is the HTTP between them, with serde_json on
-- both sides: the path that the server sees, the bodies that axum writes and reads, and their decoding.
use faultforge.Prelude.{ℕ, String, true, Option, none, some, List, map, ◌≡◌}
use faultforge.Prelude.Int.{ℤ}
use faultforge.Fault.State.{InstanceState}
use faultforge.Fault.Params.{Params}
use faultforge.Master.Experiment.{ExperimentDefinition}
use faultforge.Master.Dispatch.Frames.{Dispatcher, Sent}
use faultforge.Master.Management as Management
use faultforge.Master.Management.{Extracted, refused, Response, Body, route}
use faultforge.Master.Management.Views.{CauseView, InstanceView, ExperimentView}
use faultforge.Cli.Model.{Agent, Cause, Instance, Experiment, ExperimentSummary}
use faultforge.Cli.Api.{
  Http, Decoded, value, Reply, ok, exchange, replied, response, Method, get, post,
}

pub record Link (D B : Type 0) : Type 0 where
  pub path_of : List String → List String
  pub extract : D → Extracted
  pub body : Body → B
  pub text : B → String
  pub agent : B → Decoded Agent
  pub agents : B → Decoded (List Agent)
  pub experiment : B → Decoded Experiment
  pub experiments : B → Decoded (List ExperimentSummary)
  pub errors : String → Decoded (List String)

-- The router is asked for these very segments. The url crate makes a path of them: it leaves out a dot
-- segment, and tabs and line breaks within a segment, so not every list of segments is carried.
abbrev pub Carries : {D B : Type 0} → Link D B → List String → Type 0
Carries link segments = link.path_of segments ≡ segments

-- the name of a state in serde's SCREAMING_SNAKE_CASE
abbrev pub spelled : InstanceState → String
spelled InstanceState.pending = "PENDING"
spelled InstanceState.preflight = "PREFLIGHT"
spelled InstanceState.injecting = "INJECTING"
spelled InstanceState.active = "ACTIVE"
spelled InstanceState.recovering = "RECOVERING"
spelled InstanceState.done = "DONE"
spelled InstanceState.aborted = "ABORTED"
spelled InstanceState.error = "ERROR"

abbrev read_cause : Option CauseView → Option Cause
read_cause none = none
read_cause (some c) = some (record {
  hostname = c.hostname;
  instance_id = c.instance_id;
  reason = c.reason;
  ts_unix_ms = c.ts_unix_ms;
})

abbrev read_instance : InstanceView → Instance
read_instance i = record {
  instance_id = i.instance_id;
  hostname = i.hostname;
  action_index = i.action_index;
  state = spelled i.state;
  reason = i.reason;
  updated_unix_ms = i.updated_unix_ms;
}

-- What the client reads of a view, field by field.
abbrev pub as_read : ExperimentView → Experiment
as_read v = record {
  id = v.id;
  name = v.name;
  state = v.state;
  outcome = v.outcome;
  grace_secs = v.grace_secs;
  started_unix_ms = v.started_unix_ms;
  deadline_unix_ms = v.deadline_unix_ms;
  cause = read_cause v.cause;
  instances = map read_instance v.instances;
}

-- serde_json reads a view as it wrote it.
pub record IsFaithful {D B : Type 0} (link : Link D B) : Type 0 where
  pub reads :
      (v : ExperimentView) → link.experiment (link.body (Body.experiment v)) ≡ value (as_read v)

abbrev method_of : Method → Management.Method
method_of get = Management.get_
method_of post = Management.post

abbrev extracted : {D B : Type 0} → Link D B → Option D → Extracted
extracted link none = refused 415
extracted link (some d) = link.extract d

abbrev sent_reply : {D B : Type 0} → Link D B → Dispatcher × Response × List Sent → Reply B
sent_reply link (d, r, sent) = response r.status (link.body r.body)

-- The client's view of the server that keeps `d`, for a request that comes at `now`.
abbrev pub connected :
    {B : Type 0}
    → Link ExperimentDefinition B
    → (Params → Option String)
    → Dispatcher
    → ℤ
    → Http ExperimentDefinition B
connected link encode d now = record {
  base_url = "http://localhost:8069";
  takes_segments = true;
  send = λ method segments body.
      sent_reply link
        (route encode d (method_of method) (link.path_of segments) (extracted link body) now);
  text = link.text;
  agent = link.agent;
  agents = link.agents;
  experiment = link.experiment;
  experiments = link.experiments;
  errors = link.errors;
}

abbrev pub answered : {D B : Type 0} → Link D B → Management.Response → ℕ × B
answered link r = (r.status, link.body r.body)

-- A request whose segments the link carries comes back with what the router answers it.
pub exchange-connected :
    {B : Type 0} (link : Link ExperimentDefinition B) (encode : Params → Option String)
    (d : Dispatcher) (now : ℤ) (method : Method) (segments : List String)
    (body : Option ExperimentDefinition)
    → Carries link segments
    → exchange (connected link encode d now) method segments body
      ≡ ok (answered link (route encode d (method_of method) segments (extracted link body) now).1)
unfolding exchange replied
exchange-connected link encode d now method segments body carried = rw (carried)
