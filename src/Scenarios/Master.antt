-- ===== src/Scenarios/Master.antt =====
-- crates/master/src/experiment.rs and dispatch.rs on a small installation: two hosts and one plugin.
use faultforge.Prelude.{◌≡◌, ◌↔◌, refl, String, true, false, some, List, [], ◌∷◌}
use faultforge.Prelude.Int.{pos}
use faultforge.Prelude.Decimal.{show, show_ℤ}
use faultforge.Prelude.Dict.{get, insert}
use faultforge.Prelude.Text.{split, trim}
use faultforge.Fault.Params.{string, text, check_declared, check_supplied, validate_params}
use faultforge.Fault.State.{InstanceState}
use faultforge.Proto.Hostname.{validate_labels, parse}
use faultforge.Master.Catalog
use faultforge.Master.Catalog.{Catalog, CatalogEntry}
use faultforge.Master.Registry.{AgentInfo}
use faultforge.Master.Sessions.{SessionTx, is_connected}
use faultforge.Master.Experiment.{
  ActionDefinition, ExperimentDefinition, ExperimentOutcome, ExperimentPhase, InstanceRecord,
  Experiment, is_concluded, mint_id, instance_id, hostname_id_safe, owning_experiment_id,
}
use faultforge.Master.Experiment.Validate.{validate}
use faultforge.Master.Experiment.Mint.{mint_instance, mint_hosts, mint_actions, mint_experiment}
use faultforge.Master.Experiment.Record.{targets_host}
use faultforge.Master.Experiment.Acceptable.{IsAcceptable, validate_iff}
use faultforge.Master.Experiment.Ids.{salvo, owner_of_minted}
use faultforge.Master.Dispatch.Updates.{ids}
use faultforge.Master.Dispatch.Switch.{halt_cause, halt_update, taint_update, deadline_update}
use faultforge.Master.Dispatch.Legibility.{halted_taint_unnamed}
use faultforge.Master.Dispatch.Handled.{IsSound}
use faultforge.Master.Dispatch.Accept.{minted-IsSound}
use faultforge.Master.Dispatch.Frames.{Dispatcher}
use faultforge.Master.Dispatch.Start.{gather_host, gather_hosts, gather_actions, gather_host_facts}
use faultforge.Master.Dispatch.Handlers.{resolve_deadline}
use faultforge.Master.Dispatch.Store.{
  IsSoundStore, Call, starts, reports, halts, expires, run, run-IsSoundStore, resolve_concludes,
}

abbrev pub marker : CatalogEntry
marker = record {
  manifest = record {
    name = "noop-marker";
    version = "0.1.0";
    entrypoint = "noop-marker";
    params_schema = ("path", string) ∷ [];
    requires = record { binaries = []; privileges = []; preconditions = [] };
    max_duration_secs = 60;
  };
  digest = "sha256:00";
}

abbrev pub agent : String → AgentInfo
agent h = record { hostname = h; name = h; last_seen = pos 1; tainted = false }

abbrev pub open_stream : SessionTx
open_stream = record { stream = 0; open_ = true }

abbrev pub master : Dispatcher
master = record {
  catalog = (("noop-marker", "0.1.0"), marker) ∷ [];
  registry = ("a", agent "a") ∷ ("b", agent "b") ∷ [];
  sessions = record { inner = ("a", (0, open_stream)) ∷ ("b", (1, open_stream)) ∷ []; epochs = 2 };
  store = [];
  seq = 0;
  default_grace_secs = 10;
  deadline_margin_ms = pos 30000;
}

abbrev pub marking : ActionDefinition
marking = record {
  hosts = "a" ∷ "b" ∷ [];
  plugin = record { name = "noop-marker"; version = "0.1.0" };
  params = ("path", text "/tmp/x") ∷ [];
  duration_secs = 30;
}

abbrev pub smoke : ExperimentDefinition
smoke = record { name = "smoke"; actions = marking ∷ [] }

pub smoke_passes : validate smoke master.catalog (gather_host_facts master smoke) ≡ []
unfolding validate Catalog.get validate_params check_declared get check_supplied hostname_id_safe
    gather_actions gather_hosts gather_host parse trim validate_labels split insert is_connected
smoke_passes = refl

abbrev pub smoke_run : Experiment
smoke_run = mint_experiment (mint_id (pos 5) 0) smoke 10 (pos 5) (pos 30000)

minted-IsSound_example :
    IsSound smoke_run × (ids smoke_run.instances ≡ salvo (mint_id (pos 5) 0) 0 (marking ∷ []))
minted-IsSound_example = minted-IsSound master smoke (pos 5) smoke_passes

abbrev pub busy : Dispatcher
busy = record master { store = (mint_id (pos 5) 0, smoke_run) ∷ [] }

-- the salvo runs, one host fails, and the deadline comes
abbrev mishap : List Call
mishap =
    starts smoke (pos 9)
    ∷ reports (("exp-5-0:a:0", InstanceState.error, "inject", pos 20) ∷ [])
    ∷ halts "exp-5-0" "stop" (pos 30)
    ∷ expires "exp-5-0" (pos 40)
    ∷ []

run-IsSoundStore_example : IsSoundStore (run (λ p. some "{}") busy mishap).store
run-IsSoundStore_example =
    run-IsSoundStore (λ p. some "{}") busy mishap (minted-IsSound_example.0, tt)

pub busy_has : get (mint_id (pos 5) 0) busy.store ≡ some smoke_run
unfolding get mint_id show_ℤ show
busy_has = refl

resolve_concludes_example :
    (e' : Experiment) × (get
        (mint_id (pos 5) 0)
        (resolve_deadline busy (mint_id (pos 5) 0) (pos 70000)).0.store
      ≡ some e')
    × (is_concluded e' ≡ true)
resolve_concludes_example =
    resolve_concludes busy (mint_id (pos 5) 0) (pos 70000) smoke_run (minted-IsSound_example.0, tt)
      busy_has

validate_iff_example :
    (validate smoke master.catalog (gather_host_facts master smoke) ≡ [])
    ↔ IsAcceptable smoke master.catalog (gather_host_facts master smoke)
validate_iff_example = validate_iff smoke master.catalog (gather_host_facts master smoke)

abbrev on : String → InstanceState → InstanceRecord
on h state = record {
  instance_id = h;
  hostname = h;
  action_index = 0;
  state = state;
  reason = "";
  updated_unix_ms = pos 7;
  abort_requested = false;
}

owner_of_minted_example :
    owning_experiment_id (instance_id (mint_id (pos 5) 0) "a" 1) ≡ some (mint_id (pos 5) 0)
owner_of_minted_example = owner_of_minted (pos 5) 0 "a" 1

smoke_runs : smoke_run.phase ≡ ExperimentPhase.running
unfolding mint_experiment
smoke_runs = refl

smoke_targets : targets_host smoke_run "a" ≡ true
unfolding mint_experiment targets_host mint_actions mint_hosts parse trim validate_labels split
    mint_instance
smoke_targets = refl

halted_taint_unnamed_example :
    let e1 = (halt_update smoke_run "stop" (pos 30)).0 in
    let e2 = (taint_update e1 "a" "cleanup failed" (pos 31)).0 in
    let e3 = (deadline_update e2 (pos 70000)).0 in
    (e3.phase ≡ ExperimentPhase.concluded ExperimentOutcome.error)
    × (e3.cause ≡ some (halt_cause "stop" (pos 30)))
halted_taint_unnamed_example =
    halted_taint_unnamed smoke_run "stop" (pos 30) "a" "cleanup failed" (pos 31) (pos 70000)
      minted-IsSound_example.0 smoke_runs smoke_targets
