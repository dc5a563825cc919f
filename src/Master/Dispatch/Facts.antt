-- ===== src/Master/Dispatch/Facts.antt =====
-- crates/master/src/dispatch.rs: what `gather_host_facts` finds is what the two maps say.
use faultforge.Prelude.{
  ◌≡◌, String, true, List, [], ◌∷◌, is_some, Bool-cases, inl, inr, eq_iff, arith,
}
use faultforge.Prelude.Dict.{get, insert, get-insert}
use faultforge.Proto.Hostname.{ok, parse}
use faultforge.Master.Registry.{Registry, is_tainted}
use faultforge.Master.Sessions.{SessionMap, is_connected}
use faultforge.Master.Experiment.{ActionDefinition, HostFacts}
use faultforge.Master.Experiment.Validate.{facts_of}
use faultforge.Master.Experiment.Acceptable.{IsReady}
use faultforge.Master.Dispatch.Accept.{parse_cases}
use faultforge.Master.Dispatch.Start.{gather_host, gather_hosts, gather_actions}

-- What the registry and the session map say of a host.
abbrev host_facts : Registry → SessionMap → String → HostFacts
host_facts registry sessions k = record {
  registered = is_some (get k registry);
  connected = is_connected sessions k;
  tainted = is_tainted (get k registry);
}

module _ (registry : Registry) (sessions : SessionMap) where
  -- What was gathered of a host is what the registry and the sessions say of it.
  abbrev pub IsFactual : List (String × HostFacts) → Type 0
  IsFactual facts =
      (h k : String)
      → parse h ≡ ok k
      → is_some (get h facts) ≡ true
      → facts_of (get h facts) ≡ host_facts registry sessions k

  pub IsFactual-nil : IsFactual []
  unfolding get
  IsFactual-nil h k p s = cc

  IsFactual-insert :
      (facts : List (String × HostFacts)) (host name : String)
      → parse host ≡ ok name
      → IsFactual facts
      → IsFactual (insert host (host_facts registry sessions name) facts)
  IsFactual-insert facts host name p known h k q s =
      ground (
        arith,
        get-insert host h (host_facts registry sessions name) facts,
        eq_iff host h,
        known h k,
      )

  gather_host-IsFactual :
      (facts : List (String × HostFacts)) (host : String)
      → IsFactual facts
      → IsFactual (gather_host registry sessions facts host)
  unfolding gather_host
  gather_host-IsFactual facts host known = elim (Bool-cases (is_some (get host facts))) [
    | inl e ↦ rw (e, gather_host) known
    | inr e ↦ elim (parse_cases (parse host)) [
      | inl (x, bad) ↦ rw (e, bad, gather_host) known
      | inr (name, good) ↦ rw (e, good, gather_host) (IsFactual-insert facts host name good known)
    ]
  ]

  gather_hosts-IsFactual :
      (facts : List (String × HostFacts)) (hosts : List String)
      → IsFactual facts
      → IsFactual (gather_hosts registry sessions facts hosts)
  unfolding gather_hosts
  gather_hosts-IsFactual facts [] known = known
  gather_hosts-IsFactual facts (host ∷ hosts) known =
      gather_hosts-IsFactual (gather_host registry sessions facts host) hosts
        (gather_host-IsFactual facts host known)

  pub gather_actions-IsFactual :
      (facts : List (String × HostFacts)) (actions : List ActionDefinition)
      → IsFactual facts
      → IsFactual (gather_actions registry sessions facts actions)
  unfolding gather_actions
  gather_actions-IsFactual facts [] known = known
  gather_actions-IsFactual facts (a ∷ actions) known =
      gather_actions-IsFactual (gather_hosts registry sessions facts a.hosts) actions
        (gather_hosts-IsFactual facts a.hosts known)

  -- A ready host has a session.
  pub ready_connected :
      (facts : List (String × HostFacts)) (h : String)
      → IsFactual facts
      → parse h ≡ ok h
      → IsReady facts h
      → is_connected sessions h ≡ true
  ready_connected facts h known p r = ground (arith, known h h p, r.2)
