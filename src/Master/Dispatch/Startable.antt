-- ===== src/Master/Dispatch/Startable.antt =====
-- crates/master/src/dispatch.rs against crates/agent/src/supervisor.rs: what the master sends, the
-- agent's setup accepts.
use faultforge.Prelude.{
  ℕ, zero, suc, ◌≡◌, refl, String, Option, none, some, List, [], ◌∷◌, ◌++◌, All, All-append,
  get_elem?, Option-cases, Bool-cases, inl, inr, arith,
}
use faultforge.Prelude.Int.{ℤ}
use faultforge.Fault.Digest
use faultforge.Fault.Digest.{DigestResult}
use faultforge.Fault.Params.{Params}
use faultforge.Fault.Catalog.{Files}
use faultforge.Fault.Catalog.Loading.{load_plugin_iff}
use faultforge.Agent.Host.{TaintFile, current}
use faultforge.Agent.Catalog.{VerifiedPlugin}
use faultforge.Agent.Catalog.Verified.{plugin_dir, resolve_verified_iff}
use faultforge.Agent.Setup.{Setup, setup}
use faultforge.Agent.Setup.Accepted.{setup_iff}
use faultforge.Master.Catalog
use faultforge.Master.Catalog.{Catalog, CatalogEntry, DirEntry, load_catalog}
use faultforge.Master.Catalog.Agreed.{catalog_resolves}
use faultforge.Master.Sessions.{SessionMap, sender}
use faultforge.Master.Experiment.{
  ActionDefinition, ExperimentDefinition, HostFacts, InstanceRecord, ValidationFailure,
}
use faultforge.Master.Experiment.Mint.{mint_experiment}
use faultforge.Master.Experiment.Validate.{validate}
use faultforge.Master.Experiment.Acceptable.{IsActionOk, IsRunnable, validate_iff}
use faultforge.Master.Dispatch.Frames.{ServerMessage, run_fault, Dispatcher, Sent, send_to_host}
use faultforge.Master.Dispatch.Start.{
  gather_host_facts, run_fault_frame, dispatch_instance, dispatch_instances, send_run_faults,
  start_experiment,
}

module _ (files : Files) (root : String) (decode : String → Option Params) (taint : TaintFile) where
  -- An agent that is not quarantined starts the instance of a frame.
  abbrev pub IsStarted : Sent → Type 0
  IsStarted (h, run_fault run) =
      (plugin : VerifiedPlugin) × (params : Params) × (setup files decode root taint run
        ≡ Setup.ok plugin params)
  IsStarted (h, _) = Unit

  IsStarted-send :
      (sessions : SessionMap) (h : String) (frame : ServerMessage)
      → IsStarted (h, frame)
      → All IsStarted (send_to_host sessions h frame)
  unfolding send_to_host
  IsStarted-send sessions h frame p = elim (Option-cases (sender sessions h)) [
    | inl gone ↦ rw (gone, send_to_host) tt
    | inr (tx, up) ↦ elim (Bool-cases tx.open_) [
      | inl open_ ↦ rw (up, open_, send_to_host) (p, tt)
      | inr shut ↦ rw (up, shut, send_to_host) tt
    ]
  ]

  -- The libraries and the files that the theorem is about: the digests are hexadecimal, decoding takes
  -- back what encoding gave, the catalog was loaded from the files, and the host is not quarantined.
  record IsWorld (encode : Params → Option String) (catalog : Catalog) : Type 0 where
    listing : Option (List DirEntry)
    loaded : catalog ≡ load_catalog files root listing
    hex : (b : List ℕ) → Digest.parse (files.sha256 b) ≡ DigestResult.ok (files.sha256 b)
    free : current taint ≡ none
    back : (p : Params) (json : String) → encode p ≡ some json → decode json ≡ some p

  module _ (encode : Params → Option String) (catalog : Catalog) (w : IsWorld encode catalog) where
    started :
        (a : ActionDefinition) (e : CatalogEntry) (json id : String) (grace : ℕ)
        → Catalog.get catalog a.plugin.name a.plugin.version ≡ some e
        → IsRunnable (some e) a
        → encode a.params ≡ some json
        → (h : String)
        → IsStarted (
          h,
          run_fault (record {
            instance_id = id;
            plugin_name = a.plugin.name;
            plugin_version = a.plugin.version;
            plugin_digest = e.digest;
            params_json = json;
            duration_secs = a.duration_secs;
            grace_secs = grace;
          }),
        )
    started a e json id grace found (fits, short) encoded h =
        let resolves =
          catalog_resolves files root w.listing a.plugin.name a.plugin.version e
            (rw w.loaded at found) in
        let (named, versioned, there, loads, digests, runs) =
          (resolve_verified_iff files root a.plugin.name a.plugin.version e.digest _).0 resolves in
        let l =
          (load_plugin_iff files (plugin_dir root a.plugin.name a.plugin.version) _).0 loads in
        (
          _,
          a.params,
          (setup_iff files decode root taint _ _ a.params).1 (
            w.free,
            rw l.digests at (w.hex (l.head ++ l.body)),
            resolves,
            w.back a.params json encoded,
            fits,
            short,
          ),
        )

    dispatch-IsStarted :
        (sessions : SessionMap) (grace : ℕ) (i : InstanceRecord) (a : ActionDefinition)
        → IsRunnable (Catalog.get catalog a.plugin.name a.plugin.version) a
        → All IsStarted (dispatch_instance encode catalog sessions grace i (some a))
    unfolding dispatch_instance run_fault_frame
    dispatch-IsStarted sessions grace i a runs =
        elim (Option-cases (Catalog.get catalog a.plugin.name a.plugin.version)) [
          | inl missing ↦ rw (missing, dispatch_instance) tt
          | inr (e, found) ↦ elim (Option-cases (encode a.params)) [
            | inl stuck ↦ rw (found, stuck, dispatch_instance) tt
            | inr (json, encoded) ↦
                rw (found, encoded, dispatch_instance)
                  (IsStarted-send sessions i.hostname _ (
                    started a e json i.instance_id grace found (rw found at runs) encoded
                      i.hostname))
          ]
        ]

    -- Every action that an index finds is runnable.
    found_runs :
        (facts : List (String × HostFacts)) (actions : List ActionDefinition) (k : ℕ)
        (a : ActionDefinition)
        → All (IsActionOk catalog facts) actions
        → get_elem? actions k ≡ some a
        → IsRunnable (Catalog.get catalog a.plugin.name a.plugin.version) a
    found_runs facts [] k a ok_ is = absurd (ground arith)
    found_runs facts (x ∷ xs) zero a ok_ is = let same : x ≡ a = ground arith in rw same at ok_.0.1
    found_runs facts (x ∷ xs) (suc k) a ok_ is = found_runs facts xs k a ok_.1 is

    dispatched-IsStarted :
        (facts : List (String × HostFacts)) (sessions : SessionMap) (grace : ℕ)
        (actions : List ActionDefinition) (is : List InstanceRecord)
        → All (IsActionOk catalog facts) actions
        → All IsStarted (dispatch_instances encode catalog sessions grace actions is)
    unfolding dispatch_instances dispatch_instance
    dispatched-IsStarted facts sessions grace actions [] ok_ = tt
    dispatched-IsStarted facts sessions grace actions (i ∷ is) ok_ =
        All-append IsStarted
          (dispatch_instance encode catalog sessions grace i (get_elem? actions i.action_index)) _
          (elim (Option-cases (get_elem? actions i.action_index)) [
            | inl out ↦ rw (out, dispatch_instance) tt
            | inr (a, at_) ↦ rw at_ (
                dispatch-IsStarted sessions grace i a
                  (found_runs facts actions i.action_index a ok_ at_))
          ])
          (dispatched-IsStarted facts sessions grace actions is ok_)

-- Every RunFault that the master sends for an experiment passes the setup checks of the agent that
-- gets it, where the agent is not quarantined and its plugin files are those that the master loaded
-- its catalog from. SHA-256 is taken to come out as 64 lowercase hexadecimal characters, and the
-- params' JSON to decode to what was encoded.
pub sent_is_startable :
    (files : Files) (root : String) (decode : String → Option Params)
    (encode : Params → Option String) (taint : TaintFile) (listing : Option (List DirEntry))
    (d : Dispatcher) (definition : ExperimentDefinition) (now : ℤ)
    → d.catalog ≡ load_catalog files root listing
    → ((b : List ℕ) → Digest.parse (files.sha256 b) ≡ DigestResult.ok (files.sha256 b))
    → ((p : Params) (json : String) → encode p ≡ some json → decode json ≡ some p)
    → current taint ≡ none
    → All (IsStarted files root decode taint) (start_experiment encode d definition now).2
unfolding start_experiment send_run_faults mint_experiment
sent_is_startable files root decode encode taint listing d definition now loaded hex back free =
    sent (validate definition d.catalog (gather_host_facts d definition)) refl
  where
    world : IsWorld files root decode taint encode d.catalog
    world = record { listing = listing; loaded = loaded; hex = hex; free = free; back = back }

    sent :
        (failures : List ValidationFailure)
        → validate definition d.catalog (gather_host_facts d definition) ≡ failures
        → All (IsStarted files root decode taint) (start_experiment encode d definition now).2
    sent (f ∷ fs) q = rw (q, start_experiment) tt
    sent [] q =
        let facts = gather_host_facts d definition in
        rw (q, start_experiment)
          (dispatched-IsStarted files root decode taint encode d.catalog world facts d.sessions
            d.default_grace_secs definition.actions _
            ((validate_iff definition d.catalog facts).0 q).1)
