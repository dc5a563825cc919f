-- ===== src/Master/Server.antt =====
-- crates/master/src/server.rs: the start of the master, and its end. What an address resolves to, what the
-- catalog root holds and how the two servers end are answers of the outside.
pub mod Ready
use faultforge.Prelude.{ℕ, String, Option, none, some, List, [], ◌∷◌}
use faultforge.Prelude.Int.{pos}
use faultforge.Fault.Catalog.{Files}
use faultforge.Master.Catalog.{Catalog, DirEntry, load_catalog}
use faultforge.Master.Registry.{Registry}
use faultforge.Master.Dispatch.Frames.{Dispatcher}
use faultforge.Master.Config.{MasterConfig}

-- the errors, where those of the operating system are texts
pub data ServerError : Type 0 where
  resolve_addr_failed : (addr error : String) → ServerError
  no_addresses : (addr : String) → ServerError
  transport management : (error : String) → ServerError

pub data Result {ℓ} (A : Type ℓ) : Type ℓ where
  ok : A → Result A
  err : ServerError → Result A

-- what `lookup_host` gives
pub data Lookup : Type 0 where
  addresses : List String → Lookup
  unresolved : (error : String) → Lookup

-- the first address is chosen
unfoldable pub resolve_addr : String → Lookup → Result String
resolve_addr addr (unresolved e) = err (resolve_addr_failed addr e)
resolve_addr addr (addresses []) = err (no_addresses addr)
resolve_addr addr (addresses (a ∷ others)) = ok a

-- `Dispatcher::new`
unfoldable pub new_dispatcher : Catalog → Registry → ℕ → Dispatcher
new_dispatcher catalog registry grace = record {
  catalog = catalog;
  registry = registry;
  sessions = record { inner = []; epochs = 0 };
  store = [];
  seq = 1;
  default_grace_secs = grace;
  deadline_margin_ms = pos 30000;
}

-- The servers as they are started: the addresses, the dispatcher that they share, and the heartbeat interval
-- of the sessions.
pub record Serving : Type 0 where
  pub grpc_addr : String
  pub management_addr : String
  pub dispatcher : Dispatcher
  pub interval_secs : ℕ

-- How `try_join!` ends: the first failure, or both servers end.
pub data Ended : Type 0 where
  grpc_failed management_failed : (error : String) → Ended
  both_ended : Ended

unfoldable pub joined : Ended → Result (Unit {0})
joined (grpc_failed e) = err (transport e)
joined (management_failed e) = err (management e)
joined both_ended = ok tt

-- `run_server` up to the servers
unfoldable pub start_server :
    MasterConfig → Files → Option (List DirEntry) → (listen manage : Lookup) → Result Serving
unfolding resolve_addr
start_server cfg files entries listen manage = elim (resolve_addr cfg.listen_addr listen) [
  | err e ↦ err e
  | ok grpc ↦ elim (resolve_addr cfg.management_listen_addr manage) [
    | err e ↦ err e
    | ok api ↦ ok (record {
      grpc_addr = grpc;
      management_addr = api;
      dispatcher =
          new_dispatcher (load_catalog files cfg.catalog_root entries) [] cfg.default_grace_secs;
      interval_secs = cfg.heartbeat_interval_secs;
    })
  ]
]

unfoldable pub run_server :
    MasterConfig
    → Files
    → Option (List DirEntry)
    → (listen manage : Lookup) → Ended
    → Result (Unit {0})
unfolding start_server joined
run_server cfg files entries listen manage ended =
    elim (start_server cfg files entries listen manage) [ err e ↦ err e | ok _ ↦ joined ended ]
