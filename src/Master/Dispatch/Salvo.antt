-- ===== src/Master/Dispatch/Salvo.antt =====
-- crates/master/src/dispatch.rs, `start_experiment`: the frames that an accepted experiment sends,
-- and its answer.
use faultforge.Prelude.{
  ◌≡◌, ◌≢◌, ◌∙◌, refl, ap, String, true, Option, none, some, List, [], ◌∷◌, All, is_some, get_elem?,
  eq_refl, arith,
}
use faultforge.Prelude.Int.{ℤ}
use faultforge.Prelude.Dict.{get, get-insert}
use faultforge.Fault.Params.{Params}
use faultforge.Proto.Hostname.{ok, parse}
use faultforge.Master.Catalog
use faultforge.Master.Catalog.{Catalog, CatalogEntry}
use faultforge.Master.Sessions.{is_connected}
use faultforge.Master.Experiment.{
  ActionDefinition, ExperimentDefinition, HostFacts, ValidationFailure, Experiment, mint_id,
}
use faultforge.Master.Experiment.Validate.{validate}
use faultforge.Master.Experiment.Acceptable.{IsReady, IsActionOk, IsRunnable, validate_iff}
use faultforge.Master.Experiment.Mint.{mint_experiment}
use faultforge.Master.Dispatch.Accept.{
  OnlyParsed-nil, gather_actions-OnlyParsed, ready_actions, HasParsedHosts,
}
use faultforge.Master.Dispatch.Frames.{Dispatcher}
use faultforge.Master.Dispatch.Start.{
  gather_host_facts, accepted, rejected, send_run_faults, start_experiment,
}
use faultforge.Master.Dispatch.Facts.{
  IsFactual, IsFactual-nil, gather_actions-IsFactual, ready_connected,
}
use faultforge.Master.Dispatch.Orders.{orders, orders_in, AreOpen, IsSendable, dispatch_actions}

up_hosts :
    (d : Dispatcher) (facts : List (String × HostFacts)) (hs : List String)
    → IsFactual d.registry d.sessions facts
    → All (λ h. parse h ≡ ok h) hs
    → All (IsReady facts) hs
    → All (λ h. is_connected d.sessions h ≡ true) hs
up_hosts d facts [] known p r = tt
up_hosts d facts (h ∷ hs) known p r =
    (ready_connected d.registry d.sessions facts h known p.0 r.0, up_hosts d facts hs known p.1 r.1)

in_catalog :
    (entry : Option CatalogEntry) (a : ActionDefinition) → IsRunnable entry a → is_some entry ≡ true
in_catalog none a r = absurd r
in_catalog (some entry) a r = refl

sendable :
    (encode : Params → Option String) (d : Dispatcher) (facts : List (String × HostFacts))
    (actions : List ActionDefinition)
    → IsFactual d.registry d.sessions facts
    → ((p : Params) → is_some (encode p) ≡ true)
    → All HasParsedHosts actions
    → All (IsActionOk d.catalog facts) actions
    → All (IsSendable encode d) actions
sendable encode d facts [] known json p r = tt
sendable encode d facts (a ∷ actions) known json p r = (
  (
    p.0,
    up_hosts d facts a.hosts known p.0 r.0.3,
    in_catalog (Catalog.get d.catalog a.plugin.name a.plugin.version) a r.0.1,
    json a.params,
  ),
  sendable encode d facts actions known json p.1 r.1,
)

-- Where a definition passes validation, the params encode, and the streams of the session map are
-- open, the frames that go out are one RunFault for each host of each action, in the order of the
-- definition, each with the id of its instance, its plugin with the catalog's digest, the encoded
-- params, its duration and the default grace.
pub start_sends :
    (encode : Params → Option String) (d : Dispatcher) (definition : ExperimentDefinition) (now : ℤ)
    → validate definition d.catalog (gather_host_facts d definition) ≡ []
    → ((p : Params) → is_some (encode p) ≡ true)
    → AreOpen d.sessions
    → orders_in (start_experiment encode d definition now).2
      ≡ orders encode d.catalog d.default_grace_secs (mint_id now d.seq) 0 definition.actions
unfolding start_experiment send_run_faults mint_experiment
start_sends encode d definition now clean json open_ =
    let facts = gather_host_facts d definition in
    let actions = definition.actions in
    let acceptable = (validate_iff definition d.catalog facts).0 clean in
    let known = gather_actions-OnlyParsed d.registry d.sessions [] actions OnlyParsed-nil in
    let factual =
      gather_actions-IsFactual d.registry d.sessions [] actions
        (IsFactual-nil d.registry d.sessions) in
    let (parsed, safe) = ready_actions facts known d.catalog actions acceptable.1 in
    rw (clean, start_experiment)
      (dispatch_actions encode d d.default_grace_secs (mint_id now d.seq) now actions open_ 0
        actions (λ k j q. ap (get_elem? actions) (omega arith))
        (sendable encode d facts actions factual json parsed acceptable.1))

rejected_whole :
    (encode : Params → Option String) (d : Dispatcher) (definition : ExperimentDefinition) (now : ℤ)
    (failures : List ValidationFailure)
    → validate definition d.catalog (gather_host_facts d definition) ≡ failures
    → failures ≢ []
    → start_experiment encode d definition now ≡ (d, rejected failures, [])
unfolding start_experiment
rejected_whole encode d definition now [] q n = absurd (n refl)
rejected_whole encode d definition now (f ∷ failures) q n = rw (q, start_experiment) refl

-- A definition that validation rejects changes nothing, sends nothing, and its answer names
-- exactly the failures found; one that it accepts is answered with the record that was stored.
pub start_answers :
    (encode : Params → Option String) (d : Dispatcher) (definition : ExperimentDefinition) (now : ℤ)
    → let failures = validate definition d.catalog (gather_host_facts d definition) in
      let (d', answer, sent) = start_experiment encode d definition now in
      (failures ≢ [] → (d' ≡ d) × (answer ≡ rejected failures) × (sent ≡ []))
      × (failures ≡ [] → (e : Experiment) × (answer ≡ accepted e) × (get e.id d'.store ≡ some e))
unfolding start_experiment mint_experiment
start_answers encode d definition now =
    let failures = validate definition d.catalog (gather_host_facts d definition) in
    let id = mint_id now d.seq in
    let e = mint_experiment id definition d.default_grace_secs now d.deadline_margin_ms in
    (
      λ bad. rw (rejected_whole encode d definition now failures refl bad) (refl, refl, refl),
      λ clean.
          rw (clean, start_experiment) (e, refl, get-insert id id e d.store ∙ rw (eq_refl id) refl),
    )
