-- ===== src/Agent/Instances.antt =====
-- crates/agent/src/supervisor.rs: the instances of one agent, as frames of the master and the
-- instances' own tasks change them, and the report of the live ones. A spawned task is an entry of
-- `spawned`; what it does is `Supervisor`'s.
pub mod Once
pub mod Reported
pub mod Minted
use text.Mathlib.Text.{◌==◌ as str_eq}
use faultforge.Prelude.{
  ℕ, String, Bool, true, false, not, ◌&&◌, ◌||◌, Option, none, some, List, [], ◌∷◌, ◌++◌, ◌==◌,
  if◌then◌else◌, is_some,
}
use faultforge.Prelude.Int.{ℤ}
use faultforge.Prelude.Dict.{get, insert}
use faultforge.Prelude.Sort.{sort_by, text_le}
use faultforge.Prelude.Text.{is_empty, all_bytes, is_alphanumeric}
use faultforge.Fault.State.{InstanceState}
use faultforge.Fault.Wire.{to_wire_i32}
use faultforge.Proto.Messages.{RunFault, WireStatus}
use faultforge.Agent.Machine.{StopCause, operator_abort}

abbrev pub is_instance_byte : ℕ → Bool
is_instance_byte b = is_alphanumeric b || (b == b'.' || (b == b'_' || (b == b':' || b == b'-')))

unfoldable pub valid_instance_id : String → Bool
valid_instance_id s =
    not (is_empty s)
    && (not (str_eq s ".") && (not (str_eq s "..") && all_bytes is_instance_byte s))

-- `InstanceView`, and the stops that were sent to the task
pub record InstanceHandle : Type 0 where
  pub state : InstanceState
  pub plugin_digest : String
  pub stops : List StopCause

pub record Instances : Type 0 where
  pub instances : List (String × InstanceHandle)
  pub spawned : List RunFault

-- `Supervisor::new`
abbrev pub no_instances : Instances
no_instances = record { instances = []; spawned = [] }

unfoldable pub handle_run_fault : Instances → RunFault → Instances
handle_run_fault sup run =
    if not (valid_instance_id run.instance_id)
    then sup
    else if is_some (get run.instance_id sup.instances)
    then sup
    else record {
      instances =
          insert run.instance_id
            (record {
              state = InstanceState.pending;
              plugin_digest = run.plugin_digest;
              stops = [];
            })
            sup.instances;
      spawned = sup.spawned ++ run ∷ [];
    }

-- a rewrite of the handle of an id, or nothing
unfoldable pub with_handle : Instances → String → (InstanceHandle → InstanceHandle) → Instances
with_handle sup id update = elim (get id sup.instances) [
  | none ↦ sup
  | some handle ↦ record sup { instances = insert id (update handle) sup.instances }
]

unfoldable pub handle_abort_fault : Instances → String → Instances
handle_abort_fault sup id =
    with_handle sup id (λ h. record h { stops = h.stops ++ operator_abort ∷ [] })

-- the write of the view that `run_instance` makes after each step
unfoldable pub set_view : Instances → String → InstanceState → Instances
set_view sup id state = with_handle sup id (λ h. record h { state = state })

-- the filter of `report_frame`
abbrev pub is_live : InstanceState → Bool
is_live InstanceState.done = false
is_live InstanceState.aborted = false
is_live InstanceState.error = false
is_live _ = true

abbrev pub status_of : ℤ → String → InstanceHandle → WireStatus
status_of now_ms id h = record {
  instance_id = id;
  state = to_wire_i32 h.state;
  ts_unix_ms = now_ms;
  reason = "";
  plugin_digest = h.plugin_digest;
}

unfoldable pub live_statuses : ℤ → List (String × InstanceHandle) → List WireStatus
live_statuses now_ms [] = []
live_statuses now_ms ((id, h) ∷ hs) =
    let rest = live_statuses now_ms hs in
    if is_live h.state then status_of now_ms id h ∷ rest else rest

-- the order of `sort_by`
abbrev pub status_le : WireStatus → WireStatus → Bool
status_le a b = text_le a.instance_id b.instance_id

-- the statuses of `report_frame`
unfoldable pub report_frame : Instances → ℤ → List WireStatus
report_frame sup now_ms = sort_by status_le (live_statuses now_ms sup.instances)
