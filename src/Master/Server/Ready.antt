-- ===== src/Master/Server/Ready.antt =====
-- crates/master/src/config.rs and server.rs against the agent: what holds of a master that has started.
use mathlib.Core.Path.{subst}
use faultforge.Master.Catalog.{Catalog}
use faultforge.Master.Dispatch.Frames.{Dispatcher}
use faultforge.Prelude.{
  ℕ, ◌≤◌, ◌≡◌, refl, ◌∙◌, String, false, Option, some, List, [], ◌∷◌, All, arith,
}
use faultforge.Prelude.Int.{ℤ}
use faultforge.Fault.Params.{Params}
use faultforge.Fault.Catalog.{Files}
use faultforge.Proto.Hostname.{parse}
use faultforge.Proto.Hostname as Hostname
use faultforge.Config.{Builder, Loaded, config, failed}
use faultforge.Agent.Session as Agent
use faultforge.Agent.Session.{interpret_register_ack}
use faultforge.Master.Catalog.{DirEntry, load_catalog}
use faultforge.Master.Experiment.{ExperimentDefinition}
use faultforge.Master.Session as Session
use faultforge.Master.Session.{process_register, registered_as}
use faultforge.Master.Dispatch.Start.{start_experiment}
use faultforge.Master.Dispatch.Store.{IsSoundStore, Call, run, run-IsSoundStore}
use faultforge.Master.Dispatch.Graces.{HasGrace, start-HasGrace, run-grace}
use faultforge.Master.Config.{MasterConfig, Cli, builder, checked_config, load_config}
use faultforge.Master.Server.{
  ok, Serving, Lookup, addresses, unresolved, resolve_addr, new_dispatcher, start_server,
}

-- the checks pass only what is positive
checked_config-config :
    (loaded : Loaded MasterConfig) (cfg : MasterConfig)
    → checked_config loaded ≡ config cfg
    → (1 ≤ cfg.heartbeat_interval_secs) × (1 ≤ cfg.default_grace_secs)
unfolding checked_config
checked_config-config (failed e) cfg h = cc
checked_config-config (config c) cfg h = ground arith

load_config-config :
    (build : Builder → Loaded MasterConfig) (cli : Cli) (cfg : MasterConfig)
    → load_config build cli ≡ config cfg
    → (1 ≤ cfg.heartbeat_interval_secs) × (1 ≤ cfg.default_grace_secs)
unfolding load_config
load_config-config build cli cfg h = checked_config-config (build (builder cli)) cfg h

-- what a start leaves, whatever the addresses
start_server-ok :
    (cfg : MasterConfig) (files : Files) (entries : Option (List DirEntry)) (listen manage : Lookup)
    (s : Serving)
    → start_server cfg files entries listen manage ≡ ok s
    → (s.interval_secs ≡ cfg.heartbeat_interval_secs)
      × (s.dispatcher
          ≡ new_dispatcher (load_catalog files cfg.catalog_root entries) [] cfg.default_grace_secs)
unfolding start_server resolve_addr
start_server-ok cfg files entries (unresolved e) manage s h = absurd cc
start_server-ok cfg files entries (addresses []) manage s h = absurd cc
start_server-ok cfg files entries (addresses (a ∷ others)) (unresolved e) s h = absurd cc
start_server-ok cfg files entries (addresses (a ∷ others)) (addresses []) s h = absurd cc
start_server-ok cfg files entries (addresses (a ∷ others)) (addresses (b ∷ more)) s h = (cc, cc)

new_dispatcher-IsSoundStore :
    (d : Dispatcher) (catalog : Catalog) (grace : ℕ)
    → d ≡ new_dispatcher catalog [] grace
    → IsSoundStore d.store × (d.default_grace_secs ≡ grace)
unfolding new_dispatcher
new_dispatcher-IsSoundStore d catalog grace h = (rw (h) tt, rw (h) refl)

-- Where the configuration loads and the addresses resolve, the master that starts keeps a sound
-- store, whatever calls its dispatcher then takes; each frame of a start that asks an agent to run
-- a fault carries the configured grace, which is a second at least; and the first registration of a
-- host whose name parses is acknowledged with an interval that the agent takes, a second at least.
pub start_server-IsReady :
    (build : Builder → Loaded MasterConfig) (cli : Cli) (cfg : MasterConfig) (files : Files)
    (entries : Option (List DirEntry)) (listen manage : Lookup) (s : Serving)
    (encode : Params → Option String) (calls : List Call) (x : ExperimentDefinition) (now : ℤ)
    (raw host : String)
    → load_config build cli ≡ config cfg
    → start_server cfg files entries listen manage ≡ ok s
    → parse raw ≡ Hostname.ok host
    → IsSoundStore (run encode s.dispatcher calls).store
      × All
          (λ f. HasGrace cfg.default_grace_secs f.1)
          (start_experiment encode (run encode s.dispatcher calls) x now).2
      × (1 ≤ cfg.default_grace_secs)
      × (process_register raw false now s.interval_secs
          ≡ Session.ok host (Session.register_ack now s.interval_secs))
      × (interpret_register_ack (some (Agent.register_ack now s.interval_secs))
          ≡ Agent.ok s.interval_secs)
      × (1 ≤ s.interval_secs)
unfolding process_register registered_as interpret_register_ack
start_server-IsReady build cli cfg files entries listen manage s encode calls x now raw host loads
      starts parsed =
    let (interval, grace) = load_config-config build cli cfg loads in
    let (same, made) = start_server-ok cfg files entries listen manage s starts in
    let (sound, kept) = new_dispatcher-IsSoundStore s.dispatcher _ _ made in
    let d = run encode s.dispatcher calls in
    (
      run-IsSoundStore encode s.dispatcher calls sound,
      subst (λ g. All (λ f. HasGrace g f.1) (start_experiment encode d x now).2)
          (run-grace encode s.dispatcher calls ∙ kept) (start-HasGrace encode d x now),
      grace,
      rw (parsed) refl,
      ground (arith, interval, same),
      rw (same) interval,
    )
