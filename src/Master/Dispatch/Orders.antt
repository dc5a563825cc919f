-- ===== src/Master/Dispatch/Orders.antt =====
-- crates/master/src/dispatch.rs: the orders that a salvo carries, and that dispatching sends them.
use faultforge.Prelude.{
  ℕ, suc, ◌+◌, ◌≡◌, ◌∙◌, refl, ap, String, true, Option, none, some, List, [], ◌∷◌, ◌++◌, All,
  is_some, get_elem?, Option-cases, inl, inr, arith,
}
use faultforge.Prelude.Int.{ℤ}
use faultforge.Prelude.Dict.{get}
use faultforge.Fault.Params.{Params}
use faultforge.Proto.Hostname.{ok, parse}
use faultforge.Master.Catalog
use faultforge.Master.Catalog.{Catalog, CatalogEntry}
use faultforge.Master.Sessions.{SessionMap, SessionTx, sender, is_connected}
use faultforge.Master.Experiment.{ActionDefinition, InstanceRecord, instance_id}
use faultforge.Master.Experiment.Mint.{mint_hosts, mint_actions, mint_instance}
use faultforge.Master.Dispatch.Frames.{ServerMessage, run_fault, Dispatcher, Sent, send_to_host}
use faultforge.Master.Dispatch.Start.{run_fault_frame, dispatch_instance, dispatch_instances}

-- One frame of a salvo, with what it must carry: the digest of the catalog's entry, and the params
-- as they encode.
pub record Order : Type 0 where
  pub hostname : String
  pub instance_id : String
  pub plugin_name : String
  pub plugin_version : String
  pub digest : Option String
  pub params_json : Option String
  pub duration_secs : ℕ
  pub grace_secs : ℕ

abbrev pub digest_of : Option CatalogEntry → Option String
digest_of none = none
digest_of (some entry) = some entry.digest

module _ (encode : Params → Option String) (catalog : Catalog) (grace : ℕ) (e : String) where
  abbrev pub order : ℕ → ActionDefinition → String → Order
  order i a h = record {
    hostname = h;
    instance_id = instance_id e h i;
    plugin_name = a.plugin.name;
    plugin_version = a.plugin.version;
    digest = digest_of (Catalog.get catalog a.plugin.name a.plugin.version);
    params_json = encode a.params;
    duration_secs = a.duration_secs;
    grace_secs = grace;
  }

  abbrev pub host_orders : ℕ → ActionDefinition → List String → List Order
  host_orders i a [] = []
  host_orders i a (h ∷ hs) = order i a h ∷ host_orders i a hs

  -- One order for each host of each action, in the order of the definition.
  abbrev pub orders : ℕ → List ActionDefinition → List Order
  orders i [] = []
  orders i (a ∷ actions) = host_orders i a a.hosts ++ orders (suc i) actions

-- The orders that a list of delivered frames carries. No other frame counts as one.
abbrev order_in : Sent → List Order → List Order
order_in (h, run_fault f) rest =
    record {
      hostname = h;
      instance_id = f.instance_id;
      plugin_name = f.plugin_name;
      plugin_version = f.plugin_version;
      digest = some f.plugin_digest;
      params_json = some f.params_json;
      duration_secs = f.duration_secs;
      grace_secs = f.grace_secs;
    }
    ∷ rest
order_in (h, _) rest = rest

abbrev pub orders_in : List Sent → List Order
orders_in [] = []
orders_in (s ∷ ss) = order_in s (orders_in ss)

orders_in-append : (ss ts : List Sent) → orders_in (ss ++ ts) ≡ orders_in ss ++ orders_in ts
orders_in-append [] ts = refl
orders_in-append ((h, run_fault f) ∷ ss) ts = ground (arith, orders_in-append ss ts)
orders_in-append ((h, ServerMessage.abort_fault id) ∷ ss) ts = orders_in-append ss ts
orders_in-append ((h, ServerMessage.clear_taint) ∷ ss) ts = orders_in-append ss ts

-- The streams in the session map take frames.
abbrev pub AreOpen : SessionMap → Type 0
AreOpen sessions = (h : String) (tx : SessionTx) → sender sessions h ≡ some tx → tx.open_ ≡ true

send_open :
    (sessions : SessionMap) (h : String) (frame : ServerMessage)
    → AreOpen sessions
    → is_connected sessions h ≡ true
    → send_to_host sessions h frame ≡ (h, frame) ∷ []
unfolding send_to_host sender is_connected
send_open sessions h frame open_ c = elim (Option-cases (get h sessions.inner)) [
  | inl missing ↦ ground arith
  | inr (p, found) ↦ ground (arith, open_ h p.1)
]

-- The plugin of an action is in the catalog, its params encode, and its hosts are connected.
abbrev pub IsSendable : (Params → Option String) → Dispatcher → ActionDefinition → Type 0
IsSendable encode d a =
    All (λ h. parse h ≡ ok h) a.hosts
    × All (λ h. is_connected d.sessions h ≡ true) a.hosts
    × (is_some (Catalog.get d.catalog a.plugin.name a.plugin.version) ≡ true)
    × (is_some (encode a.params) ≡ true)

-- `actions` are the actions of `all` from the index `i` on.
abbrev pub IsTail : List ActionDefinition → ℕ → List ActionDefinition → Type 0
IsTail all i actions = (k j : ℕ) → j ≡ i + k → get_elem? all j ≡ get_elem? actions k

module _ (encode : Params → Option String) (d : Dispatcher) (grace : ℕ) (e : String) (now : ℤ) where
  dispatch_one :
      (i : ℕ) (a : ActionDefinition) (h : String)
      → AreOpen d.sessions
      → is_connected d.sessions h ≡ true
      → is_some (Catalog.get d.catalog a.plugin.name a.plugin.version) ≡ true
      → is_some (encode a.params) ≡ true
      → orders_in
          (dispatch_instance encode d.catalog d.sessions grace (mint_instance e now i h) (some a))
        ≡ order encode d.catalog grace e i a h ∷ []
  unfolding dispatch_instance run_fault_frame mint_instance
  dispatch_one i a h open_ c k p =
      elim (Option-cases (Catalog.get d.catalog a.plugin.name a.plugin.version)) [
        | inl missing ↦ ground arith
        | inr (entry, found) ↦ elim (Option-cases (encode a.params)) [
          | inl stuck ↦ ground arith
          | inr (json, encoded) ↦
              rw (dispatch_instance, found, encoded, send_open d.sessions h _ open_ c) refl
        ]
      ]

  module _ (all : List ActionDefinition) (open_ : AreOpen d.sessions) where
    dispatch_hosts :
        (i : ℕ) (a : ActionDefinition) (hs : List String) (rest : List InstanceRecord)
        → get_elem? all i ≡ some a
        → All (λ h. parse h ≡ ok h) hs
        → All (λ h. is_connected d.sessions h ≡ true) hs
        → is_some (Catalog.get d.catalog a.plugin.name a.plugin.version) ≡ true
        → is_some (encode a.params) ≡ true
        → orders_in (
            dispatch_instances encode d.catalog d.sessions grace all
              (mint_hosts e now i hs ++ rest))
          ≡ host_orders encode d.catalog grace e i a hs
            ++ orders_in (dispatch_instances encode d.catalog d.sessions grace all rest)
    unfolding dispatch_instances mint_hosts mint_instance instance_id Catalog.get
    dispatch_hosts i a [] rest at_ parsed up known json = refl
    dispatch_hosts i a (h ∷ hs) rest at_ parsed up known json =
        rw
          (
            parsed.0,
            mint_hosts,
            at_,
            orders_in-append (
                dispatch_instance encode d.catalog d.sessions grace (mint_instance e now i h)
                  (some a)),
            dispatch_one i a h open_ up.0 known json,
            dispatch_hosts i a hs rest at_ parsed.1 up.1 known json,
          )
          refl

    pub dispatch_actions :
        (i : ℕ) (actions : List ActionDefinition)
        → IsTail all i actions
        → All (IsSendable encode d) actions
        → orders_in (
            dispatch_instances encode d.catalog d.sessions grace all (mint_actions e now i actions))
          ≡ orders encode d.catalog grace e i actions
    unfolding mint_actions dispatch_instances
    dispatch_actions i [] tail ok_ = refl
    dispatch_actions i (a ∷ actions) tail (here, there) =
        dispatch_hosts i a a.hosts (mint_actions e now (suc i) actions) (tail 0 i (omega arith))
          here.0 here.1 here.2 here.3
        ∙ ap (λ os. host_orders encode d.catalog grace e i a a.hosts ++ os)
            (dispatch_actions (suc i) actions (λ k j q. tail (suc k) j (omega arith)) there)
