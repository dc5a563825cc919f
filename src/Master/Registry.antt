-- ===== src/Master/Registry.antt =====
-- crates/master/src/registry.rs: the agents that ever registered. Times are unix milliseconds.
pub mod Taints
use faultforge.Prelude.{String, Bool, false, Option, none, some, List}
use faultforge.Prelude.Int.{ℤ}
use faultforge.Prelude.Dict.{get, insert}

pub record AgentInfo : Type 0 where
  pub hostname : String
  pub name : String
  pub last_seen : ℤ
  pub tainted : Bool

abbrev pub Registry : Type 0
Registry = List (String × AgentInfo)

-- `.is_some_and(|info| info.tainted)`
abbrev pub is_tainted : Option AgentInfo → Bool
is_tainted none = false
is_tainted (some info) = info.tainted

unfoldable pub register_agent : Registry → String → ℤ → Registry
register_agent reg hostname now = insert hostname info reg
  where
    info : AgentInfo
    info = record {
      hostname = hostname;
      name = hostname;
      last_seen = now;
      tainted = is_tainted (get hostname reg);
    }

-- `get_mut` and a write, or nothing on a missing key
unfoldable pub set_taint : Registry → String → Bool → Registry
set_taint reg hostname tainted = elim (get hostname reg) [
  | none ↦ reg
  | some info ↦ insert hostname (record info { tainted = tainted }) reg
]

unfoldable pub update_heartbeat : Registry → String → ℤ → Registry
update_heartbeat reg hostname now = elim (get hostname reg) [
  | none ↦ reg
  | some info ↦ insert hostname (record info { last_seen = now }) reg
]
