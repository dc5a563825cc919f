-- ===== src/Scenarios/Fleet.antt =====
-- A master and an agent with the same plugin files: one plugin that takes no parameter, and one host.
use faultforge.Prelude.{
  ◌≡◌, ◌≢◌, ◌↔◌, ◌⊎◌, refl, String, true, false, Option, none, some, List, [], ◌∷◌, All, arith,
}
use faultforge.Prelude.Int.{pos}
use faultforge.Prelude.Dict.{get, insert}
use faultforge.Prelude.Text.{split, trim}
use faultforge.Fault.Params.{Params, check_declared, check_supplied, validate_params}
use faultforge.Fault.Manifest.{
  Manifest, raw, parse_name, parse_manifest, validate as validate_manifest, is_valid_plugin_version,
  plugin_dir_name, is_absolute, has_parent_dir,
}
use faultforge.Fault.Catalog.{Files, bytes, path_join, load_plugin}
use faultforge.Fault.Digest
use faultforge.Proto.Hostname.{validate_labels, parse}
use faultforge.Proto.Messages.{RunFault}
use faultforge.Agent.Host.{absent, current, TaintFile, TaintRecord, holds}
use faultforge.Agent.Catalog.{VerifiedPlugin, Resolved, resolve_verified}
use faultforge.Agent.Catalog.Verified.{resolved_below_root, plugin_dir}
use faultforge.Agent.Setup.{Setup, setup, tainted}
use faultforge.Agent.Setup.Cleared.{clear_governs}
use faultforge.Agent.Quarantine.{ran, handle_clear_taint}
use faultforge.Agent.Supervisor.{taint_status}
use faultforge.Agent.Setup.Accepted.{IsStartable, setup_iff}
use faultforge.Master.Catalog
use faultforge.Master.Catalog.{
  CatalogEntry, DirEntry, named, load_entry, load_entries, load_catalog,
}
use faultforge.Master.Catalog.Agreed.{catalog_resolves}
use faultforge.Master.Sessions.{sender, is_connected}
use faultforge.Master.Experiment.{ExperimentDefinition, mint_id, hostname_id_safe}
use faultforge.Master.Experiment.Validate.{validate}
use faultforge.Master.Dispatch.Frames.{Dispatcher}
use faultforge.Master.Dispatch.Start.{
  gather_host, gather_hosts, gather_actions, gather_host_facts, start_experiment,
}
use faultforge.Master.Dispatch.Orders.{AreOpen, orders, orders_in}
use faultforge.Master.Dispatch.Salvo.{start_sends}
use faultforge.Master.Dispatch.Startable.{IsStarted, sent_is_startable}

abbrev marker : Manifest
marker = record {
  name = "noop-marker";
  version = "1";
  entrypoint = "./run.sh";
  params_schema = [];
  requires = record { binaries = []; privileges = []; preconditions = [] };
  max_duration_secs = 60;
}

abbrev sum : String
sum = "aab0f7e0d67b3b0225252193a01c1313cf34da6a0244f59162eac97029d770a2"

abbrev pub disk : Files
disk = record {
  is_dir = λ path. true;
  read = λ path. bytes (1 ∷ []);
  utf8 = λ b. some "name: noop-marker";
  decode = λ text. raw marker;
  sha256 = λ b. sum;
}

abbrev listing : Option (List DirEntry)
listing = some (named "noop-marker@1" ∷ [])

-- Only empty params encode here.
abbrev encode : Params → Option String
encode [] = some "{}"
encode (_ ∷ _) = none

abbrev decode : String → Option Params
decode json = some []

decodes : (p : Params) (json : String) → encode p ≡ some json → decode json ≡ some p
decodes [] json h = refl
decodes (_ ∷ _) json h = absurd (ground arith)

sum_parses : Digest.parse sum ≡ Digest.DigestResult.ok sum
unfolding Digest.parse
sum_parses = refl

abbrev entry : CatalogEntry
entry = record { manifest = marker; digest = sum }

catalog_has : Catalog.get (load_catalog disk "/plugins" listing) "noop-marker" "1" ≡ some entry
unfolding Catalog.get load_catalog load_entries load_entry load_plugin parse_manifest parse_name
    validate_manifest split is_valid_plugin_version plugin_dir_name Catalog.insert
catalog_has = refl

catalog_resolves_example :
    resolve_verified disk "/plugins" "noop-marker" "1" sum
    ≡ Resolved.ok (record {
      entrypoint = path_join (plugin_dir "/plugins" "noop-marker" "1") "./run.sh";
      manifest = marker;
      digest = sum;
    })
catalog_resolves_example =
    catalog_resolves disk "/plugins" listing "noop-marker" "1" entry catalog_has

abbrev plugin : VerifiedPlugin
plugin = record {
  entrypoint = path_join (plugin_dir "/plugins" "noop-marker" "1") "./run.sh";
  manifest = marker;
  digest = sum;
}

resolved_below_root_example :
    let component = plugin_dir_name "noop-marker" "1" in
    (plugin.entrypoint ≡ path_join (path_join "/plugins" component) "./run.sh")
    × (split b'/' component ≡ component ∷ [])
    × (is_absolute component ≡ false)
    × (has_parent_dir component ≡ false)
    × (is_absolute "./run.sh" ≡ false)
    × (has_parent_dir "./run.sh" ≡ false)
resolved_below_root_example =
    resolved_below_root disk "/plugins" "noop-marker" "1" sum plugin catalog_resolves_example

abbrev order : RunFault
order = record {
  instance_id = "exp-5-0:a:0";
  plugin_name = "noop-marker";
  plugin_version = "1";
  plugin_digest = sum;
  params_json = "{}";
  duration_secs = 30;
  grace_secs = 10;
}

setup_iff_example :
    (setup disk decode "/plugins" absent order ≡ Setup.ok plugin [])
    ↔ IsStartable disk decode "/plugins" absent order plugin []
setup_iff_example = setup_iff disk decode "/plugins" absent order plugin []

abbrev quarantined : TaintFile
quarantined = holds (record { reason = "cleanup failed"; instance_id = "exp-4-0:a:0" })

clear_governs_example :
    let (after, answer) = handle_clear_taint (ran (some "busy")) quarantined in
    ((answer ≡ taint_status false "")
      × ((why : String) → setup disk decode "/plugins" after order ≢ Setup.err (tainted why)))
    ⊎ ((why : String) × ((answer ≡ taint_status true why)
          × ((r : TaintRecord)
              → current quarantined ≡ some r
              → setup disk decode "/plugins" after order ≡ Setup.err (tainted r.reason))))
clear_governs_example = clear_governs disk decode "/plugins" order (ran (some "busy")) quarantined

abbrev master : Dispatcher
master = record {
  catalog = load_catalog disk "/plugins" listing;
  registry = ("a", record { hostname = "a"; name = "a"; last_seen = pos 1; tainted = false }) ∷ [];
  sessions = record { inner = ("a", (0, record { stream = 0; open_ = true })) ∷ []; epochs = 1 };
  store = [];
  seq = 0;
  default_grace_secs = 10;
  deadline_margin_ms = pos 30000;
}

abbrev smoke : ExperimentDefinition
smoke = record {
  name = "smoke";
  actions =
      record {
        hosts = "a" ∷ [];
        plugin = record { name = "noop-marker"; version = "1" };
        params = [];
        duration_secs = 30;
      }
      ∷ [];
}

smoke_passes : validate smoke master.catalog (gather_host_facts master smoke) ≡ []
unfolding validate Catalog.get validate_params check_declared get check_supplied hostname_id_safe
    gather_actions gather_hosts gather_host parse trim validate_labels split insert is_connected
smoke_passes = rw catalog_has refl

streams_open : AreOpen master.sessions
unfolding sender get
streams_open h tx found = ground arith

sent_is_startable_example :
    All (IsStarted disk "/plugins" decode absent) (start_experiment encode master smoke (pos 5)).2
unfolding current
sent_is_startable_example =
    sent_is_startable disk "/plugins" decode encode absent listing master smoke (pos 5) refl
      (λ b. sum_parses) decodes refl

start_sends_example :
    orders_in (start_experiment (λ p. some "{}") master smoke (pos 5)).2
    ≡ orders (λ p. some "{}") master.catalog 10 (mint_id (pos 5) 0) 0 smoke.actions
start_sends_example =
    start_sends (λ p. some "{}") master smoke (pos 5) smoke_passes (λ p. refl) streams_open
