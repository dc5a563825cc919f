-- ===== src/Master/Dispatch/Start.antt =====
-- crates/master/src/dispatch.rs: the accept path, `start_experiment`. `encode` stands for
-- `serde_json::to_string`. The deadline task that it spawns is a later call of `resolve_deadline`.
use faultforge.Prelude.{
  ℕ, ◌+◌, ◌%◌, ◌^◌, String, Option, none, some, List, [], ◌∷◌, ◌++◌, if◌then◌else◌, is_some,
  get_elem?,
}
use faultforge.Prelude.Int.{ℤ}
use faultforge.Prelude.Dict.{get, insert}
use faultforge.Fault.Params.{Params}
use faultforge.Proto.Hostname.{ParseResult, ok, err, parse}
use faultforge.Master.Catalog
use faultforge.Master.Catalog.{Catalog, CatalogEntry}
use faultforge.Master.Registry.{Registry, is_tainted}
use faultforge.Master.Sessions.{SessionMap, is_connected}
use faultforge.Master.Experiment.{
  ActionDefinition, ExperimentDefinition, HostFacts, ValidationFailure, InstanceRecord, Experiment,
  mint_id,
}
use faultforge.Master.Experiment.Validate.{validate}
use faultforge.Master.Experiment.Mint.{mint_experiment}
use faultforge.Master.Dispatch.Frames.{ServerMessage, run_fault, Dispatcher, Sent, send_to_host}

add_facts :
    Registry
    → SessionMap
    → List (String × HostFacts)
    → String
    → ParseResult
    → List (String × HostFacts)
add_facts registry sessions facts host (err _) = facts
add_facts registry sessions facts host (ok hostname) =
    insert host
      (record {
        registered = is_some (get hostname registry);
        connected = is_connected sessions hostname;
        tainted = is_tainted (get hostname registry);
      })
      facts

-- the body of the loops of `gather_host_facts`
unfoldable pub gather_host :
    Registry → SessionMap → List (String × HostFacts) → String → List (String × HostFacts)
unfolding add_facts
gather_host registry sessions facts host =
    if is_some (get host facts) then facts else add_facts registry sessions facts host (parse host)

unfoldable pub gather_hosts :
    Registry → SessionMap → List (String × HostFacts) → List String → List (String × HostFacts)
gather_hosts registry sessions facts [] = facts
gather_hosts registry sessions facts (host ∷ hosts) =
    gather_hosts registry sessions (gather_host registry sessions facts host) hosts

unfoldable pub gather_actions :
    Registry
    → SessionMap
    → List (String × HostFacts)
    → List ActionDefinition
    → List (String × HostFacts)
gather_actions registry sessions facts [] = facts
gather_actions registry sessions facts (a ∷ actions) =
    gather_actions registry sessions (gather_hosts registry sessions facts a.hosts) actions

abbrev pub gather_host_facts : Dispatcher → ExperimentDefinition → List (String × HostFacts)
gather_host_facts d definition = gather_actions d.registry d.sessions [] definition.actions

-- the frame of one instance, where its plugin is in the catalog and its params encode
unfoldable pub run_fault_frame :
    ℕ
    → InstanceRecord
    → ActionDefinition
    → Option CatalogEntry
    → Option String
    → Option ServerMessage
run_fault_frame grace i action (some entry) (some params_json) = some (
    run_fault (record {
      instance_id = i.instance_id;
      plugin_name = action.plugin.name;
      plugin_version = action.plugin.version;
      plugin_digest = entry.digest;
      params_json = params_json;
      duration_secs = action.duration_secs;
      grace_secs = grace;
    }))
run_fault_frame grace i action _ _ = none

pub data StartResult : Type 0 where
  accepted : Experiment → StartResult
  rejected : List ValidationFailure → StartResult

module _ (encode : Params → Option String) where
  -- `definition.actions[i]` panics out of range; `none` stands for that here
  unfoldable pub dispatch_instance :
      Catalog → SessionMap → ℕ → InstanceRecord → Option ActionDefinition → List Sent
  unfolding run_fault_frame
  dispatch_instance catalog sessions grace i none = []
  dispatch_instance catalog sessions grace i (some action) =
      elim (run_fault_frame grace i action
        (Catalog.get catalog action.plugin.name action.plugin.version) (encode action.params)) [
          | none ↦ []
          | some frame ↦ send_to_host sessions i.hostname frame
        ]

  unfoldable pub dispatch_instances :
      Catalog → SessionMap → ℕ → List ActionDefinition → List InstanceRecord → List Sent
  unfolding dispatch_instance
  dispatch_instances catalog sessions grace actions [] = []
  dispatch_instances catalog sessions grace actions (i ∷ is) =
      dispatch_instance catalog sessions grace i (get_elem? actions i.action_index)
      ++ dispatch_instances catalog sessions grace actions is

  unfoldable pub send_run_faults : Dispatcher → Experiment → List Sent
  unfolding dispatch_instances
  send_run_faults d e =
      dispatch_instances d.catalog d.sessions e.grace_secs e.definition.actions e.instances

  -- `start_experiment` once validation has answered; `fetch_add` wraps at 2^64
  unfoldable pub start_validated :
      Dispatcher
      → ExperimentDefinition
      → ℤ
      → List ValidationFailure
      → Dispatcher × StartResult × List Sent
  start_validated d definition now_ms (f ∷ failures) = (d, rejected (f ∷ failures), [])
  start_validated d definition now_ms [] =
      let id = mint_id now_ms d.seq in
      let e = mint_experiment id definition d.default_grace_secs now_ms d.deadline_margin_ms in
      (
        record d { seq = (d.seq + 1) % 2 ^ 64; store = insert id e d.store },
        accepted e,
        send_run_faults d e,
      )

  unfoldable pub start_experiment :
      Dispatcher → ExperimentDefinition → ℤ → Dispatcher × StartResult × List Sent
  unfolding start_validated
  start_experiment d definition now_ms =
      start_validated d definition now_ms
        (validate definition d.catalog (gather_host_facts d definition))
