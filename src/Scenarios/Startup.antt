-- ===== src/Scenarios/Startup.antt =====
-- The two programs from their configurations on, one invocation's telemetry, and an agent's JSON.
use text.Mathlib.Text.{◌==◌ as str_eq}
use faultforge.Fault.Protocol.{Disposition, classify_exit}
use faultforge.Agent.Supervisor.{exited}
use faultforge.Prelude.{
  if◌then◌else◌, ◌≡◌, ◌≤◌, refl, String, true, false, ◌==◌, Option, none, some, List, [], ◌∷◌, All,
}
use faultforge.Prelude.Int.{pos}
use faultforge.Prelude.Text.{is_empty, split, trim}
use faultforge.Fault.Params.{Params}
use faultforge.Fault.State.{InstanceState}
use faultforge.Fault.Events.{PluginEvent, EventBody, status_body, status_event}
use faultforge.Master.Catalog.{load_catalog}
use faultforge.Proto.Hostname.{parse, validate_labels}
use faultforge.Proto.Hostname as Hostname
use faultforge.Proto.Messages.{fault_event}
use faultforge.Config.{Builder, Loaded, config}
use faultforge.Agent.Config.{AgentConfig}
use faultforge.Agent.Start as AgentStart
use faultforge.Agent.Start.{
  HostnameLookup, found, Started, start_agent, normalize_master_addr, contains, has_prefix,
}
use faultforge.Agent.Start.Welcome.{start_agent-IsWelcome}
use faultforge.Agent.Session as AgentSession
use faultforge.Agent.Session.{interpret_register_ack}
use faultforge.Agent.Runner.{
  Lines, Child, Ran, started, busy, spawn_retries, ended, event, invoke, wait_with_timeout,
  spawn_entrypoint, split_stdout, split_lines, stdout_line, captured,
}
use faultforge.Agent.Telemetry.{Log, forward_telemetry}
use faultforge.Agent.Telemetry.Verbatim.{telemetry_verbatim}
use faultforge.Master.Session as Session
use faultforge.Master.Session.{process_register}
use faultforge.Master.Dispatch.Start.{start_experiment}
use faultforge.Master.Dispatch.Store.{IsSoundStore, Call, starts, halts, run}
use faultforge.Master.Dispatch.Graces.{HasGrace}
use faultforge.Master.Config.{MasterConfig, Cli, load_config}
use faultforge.Master.Server.{
  ok, Serving, Lookup, addresses, resolve_addr, new_dispatcher, start_server,
}
use faultforge.Master.Server.Ready.{start_server-IsReady}
use faultforge.Cli.Model.{Agent, agent_from_wire, wire_from_agent}
use faultforge.Cli.Model.Wire.{IsTruncated, wire-round_trip}
use faultforge.Scenarios.Master.{smoke}
use faultforge.Scenarios.Fleet.{disk}

abbrev bare_cli : Cli
bare_cli = record {
  config_file = none;
  listen_addr = none;
  management_listen_addr = none;
  heartbeat_interval_secs = none;
  catalog_root = none;
  default_grace_secs = none;
}

abbrev usual : MasterConfig
usual = record {
  listen_addr = "127.0.0.1:50051";
  management_listen_addr = "127.0.0.1:8069";
  heartbeat_interval_secs = 5;
  catalog_root = "/usr/lib/faultforge/plugins";
  default_grace_secs = 10;
}

abbrev build : Builder → Loaded MasterConfig
build b = config usual

usual_loads : load_config build bare_cli ≡ config usual
unfolding load_config
usual_loads = refl

abbrev here : Lookup
here = addresses ("127.0.0.1" ∷ [])

abbrev serving : Serving
serving = record {
  grpc_addr = "127.0.0.1";
  management_addr = "127.0.0.1";
  dispatcher = new_dispatcher [] [] 10;
  interval_secs = 5;
}

usual_starts : start_server usual disk none here here ≡ ok serving
unfolding start_server resolve_addr load_catalog
usual_starts = refl

host_parses : parse " web-01 " ≡ Hostname.ok "web-01"
unfolding parse trim validate_labels split
host_parses = refl

abbrev encode : Params → Option String
encode p = some "{}"

abbrev calls : List Call
calls = starts smoke (pos 9) ∷ halts "exp-9-1" "stop" (pos 30) ∷ []

start_server-IsReady_example :
    IsSoundStore (run encode serving.dispatcher calls).store
    × All
        (λ f. HasGrace 10 f.1)
        (start_experiment encode (run encode serving.dispatcher calls) smoke (pos 40)).2
    × (1 ≤ 10)
    × (process_register " web-01 " false (pos 40) 5
        ≡ Session.ok "web-01" (Session.register_ack (pos 40) 5))
    × (interpret_register_ack (some (AgentSession.register_ack (pos 40) 5)) ≡ AgentSession.ok 5)
    × (1 ≤ 5)
start_server-IsReady_example =
    start_server-IsReady build bare_cli usual disk none here here serving encode calls smoke
      (pos 40) " web-01 " "web-01" usual_loads usual_starts host_parses

abbrev agent_config : AgentConfig
agent_config = record {
  master_addr = "master:50051";
  plugin_root = "/usr/lib/faultforge/plugins";
  data_dir = "/var/lib/faultforge";
  master_loss_threshold_secs = 30;
  invocation_timeout_secs = 60;
}

abbrev awake : Started
awake = record {
  hostname = "web-01";
  master_addr = "http://master:50051";
  data_dir = "/var/lib/faultforge";
  plugin_root = "/usr/lib/faultforge/plugins";
  invocation_timeout_secs = 60;
  loss_threshold_secs = 30;
  backoff = 1;
  startup_frames = [];
}

agent_starts : start_agent agent_config (some []) (found " web-01 ") ≡ AgentStart.ok awake
unfolding start_agent parse trim validate_labels split normalize_master_addr contains has_prefix
agent_starts = refl

start_agent-IsWelcome_example :
    (process_register "web-01" false (pos 40) 5
      ≡ Session.ok "web-01" (Session.register_ack (pos 40) 5))
    × (normalize_master_addr "http://master:50051" ≡ "http://master:50051")
start_agent-IsWelcome_example =
    start_agent-IsWelcome agent_config (some []) (found " web-01 ") awake (pos 40) 5 agent_starts

abbrev distant : Agent
distant = record { hostname = "web-01"; name = "web-01"; last_seen = pos 1900000; tainted = false }

wire-round_trip_example :
    let b = agent_from_wire (wire_from_agent distant) in
    (b ≡ record distant { last_seen = b.last_seen })
    × IsTruncated (pos 1900000) b.last_seen
    × (agent_from_wire (wire_from_agent b) ≡ b)
wire-round_trip_example = wire-round_trip distant

-- an inject of the marker plugin, its two events and their lines
abbrev event_of : InstanceState → PluginEvent
event_of state = status_event "2026-01-01T00:00:00Z" "exp-5-0:a:0" state

abbrev told : List PluginEvent
told = event_of InstanceState.injecting ∷ event_of InstanceState.active ∷ []

abbrev line : EventBody → String
line (status_body InstanceState.injecting) = "injecting"
line _ = "active"

abbrev lines_of : String → List String
lines_of String.[] = []
lines_of (String.◌∷◌ c s) = "injecting" ∷ "active" ∷ []

abbrev lines : Lines
lines = record {
  lines_of = lines_of;
  is_blank = is_empty;
  parse_event = λ l.
      some
        (event_of (if str_eq l "injecting" then InstanceState.injecting else InstanceState.active));
}

abbrev logs : Log
logs = record { stamp = λ n. ""; encode = λ e. none }

abbrev process : Child
process = record {
  encode_error = none;
  spawns = λ n. if n == 0 then busy "text file busy" else started;
  takes_input = true;
  polls = λ n. ended (some (pos 0));
  elapsed = λ n. 0;
  stdout = "injecting\nactive";
  stderr = "";
}

abbrev injected : Ran
injected = record {
  lines =
      event "injecting" (event_of InstanceState.injecting)
      ∷ event "active" (event_of InstanceState.active)
      ∷ [];
  stderr = "";
  outcome = exited Disposition.success;
  killed = false;
}

process_runs : invoke lines process 60000 2 ≡ some injected
unfolding invoke spawn_entrypoint captured split_stdout split_lines stdout_line wait_with_timeout
    classify_exit
process_runs = refl

process_starts : spawn_entrypoint process spawn_retries 0 ≡ none
unfolding spawn_entrypoint
process_starts = refl

telemetry_verbatim_example :
    forward_telemetry lines logs "exp-5-0:a:0" injected
    ≡ fault_event "exp-5-0:a:0" "injecting" ∷ fault_event "exp-5-0:a:0" "active" ∷ []
telemetry_verbatim_example =
    telemetry_verbatim lines logs (λ e. line e.body) process 60000 2 "exp-5-0:a:0" told injected
      ((refl, refl), ((refl, refl), tt)) refl process_starts refl refl process_runs
