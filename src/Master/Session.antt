-- ===== src/Master/Session.antt =====
-- crates/master/src/session.rs: one agent's stream, from its first frame to its end. The time of a
-- frame is an argument, in unix milliseconds. Whether a send on the stream's own channel succeeds is
-- an answer of the outside, one for each frame. Log lines are left out.
pub mod Calls
pub mod Turns
pub mod Streams
pub mod Served
pub mod Leaves
pub mod Violations
use faultforge.Prelude.{
  ℕ, String, Bool, true, false, Option, none, some, List, [], ◌∷◌, ◌++◌, if◌then◌else◌, is_some,
}
use faultforge.Prelude.Int.{ℤ}
use faultforge.Fault.State.{InstanceState}
use faultforge.Fault.Wire
use faultforge.Fault.Wire.{WireStateError, from_wire_i32}
use faultforge.Proto.Messages.{
  WireStatus, AgentPayload, register, heartbeat, fault_event, instance_status, instance_report,
  taint_status,
}
use faultforge.Proto.Hostname
use faultforge.Proto.Hostname.{HostnameError, parse}
use faultforge.Master.Registry.{register_agent, update_heartbeat}
use faultforge.Master.Sessions.{SessionTx, insert_session, remove_if_current}
use faultforge.Master.Dispatch.Frames.{Dispatcher, Sent}
use faultforge.Master.Dispatch.Handlers.{
  handle_instance_status, handle_instance_report, handle_taint_status,
}

-- the statuses that end a stream, without their texts
pub data Status : Type 0 where
  duplicate_register heartbeat_before_register : Status
  bad_hostname : HostnameError → Status

-- the replies on the stream
pub data Reply : Type 0 where
  register_ack : (server_time_unix_ms : ℤ) → (heartbeat_interval_secs : ℕ) → Reply
  heartbeat_ack : (server_time_unix_ms : ℤ) → Reply
  failed : Status → Reply

pub data Registered : Type 0 where
  ok : String → Reply → Registered
  err : Status → Registered

unfoldable pub registered_as : ℤ → ℕ → Hostname.ParseResult → Registered
registered_as now interval (Hostname.ok hostname) = ok hostname (register_ack now interval)
registered_as now interval (Hostname.err e) = err (bad_hostname e)

unfoldable pub process_register : String → Bool → ℤ → ℕ → Registered
unfolding registered_as
process_register hostname already_registered now interval =
    if already_registered
    then err duplicate_register
    else registered_as now interval (parse hostname)

pub data Beaten : Type 0 where
  ok : Reply → Beaten
  err : Status → Beaten

unfoldable pub process_heartbeat : Option String → ℤ → Beaten
process_heartbeat none now = Beaten.err heartbeat_before_register
process_heartbeat (some _) now = Beaten.ok (heartbeat_ack now)

-- an intake of the dispatcher
abbrev pub Decoded : Type 0
Decoded = String × InstanceState × String × ℤ

decoded : WireStatus → Wire.WireResult → Option Decoded
decoded status (Wire.ok state) = some (status.instance_id, state, status.reason, status.ts_unix_ms)
decoded status (Wire.err _) = none

-- `decode_status`, where `none` is its error
unfoldable pub decode_status : WireStatus → Option Decoded
unfolding decoded
decode_status status = decoded status (from_wire_i32 status.state)

-- the loop of `instance_report`
unfoldable pub decode_all : List WireStatus → List Decoded
decode_all [] = []
decode_all (s ∷ ss) =
    let rest = decode_all ss in elim (decode_status s) [ some d ↦ d ∷ rest | none ↦ rest ]

pub data Flow : Type 0 where
  continue stop : Flow

pub record Session : Type 0 where
  pub hostname : Option String
  pub epoch : Option ℕ

abbrev pub fresh : Session
fresh = record { hostname = none; epoch = none }

-- The outcome of a frame: the dispatcher and the session after it, whether to read on, the replies
-- put on the stream, and the frames that other streams took.
pub record Turn : Type 0 where
  pub dispatcher : Dispatcher
  pub session : Session
  pub flow : Flow
  pub replies : List Reply
  pub sent : List Sent

-- `send` and `reject`; a reply on a closed channel is lost
unfoldable pub send : Bool → Dispatcher → Session → Reply → Turn
send delivers d s reply = record {
  dispatcher = d;
  session = s;
  flow = if delivers then continue else stop;
  replies = if delivers then reply ∷ [] else [];
  sent = [];
}

unfoldable pub reject : Bool → Dispatcher → Session → Status → Turn
reject delivers d s status = record {
  dispatcher = d;
  session = s;
  flow = stop;
  replies = if delivers then failed status ∷ [] else [];
  sent = [];
}

-- no reply, and the stream goes on
unfoldable pub read_on : Dispatcher × List Sent → Session → Turn
read_on (d, sent) s = record {
  dispatcher = d;
  session = s;
  flow = continue;
  replies = [];
  sent = sent;
}

module _ (interval : ℕ) (tx : SessionTx) (delivers : Bool) (now : ℤ) where
  registered : Dispatcher → Session → Registered → Turn
  registered d s (Registered.ok h reply) =
      let (sessions, epoch) = insert_session d.sessions h tx in
      send delivers (record d { registry = register_agent d.registry h now; sessions = sessions })
        (record { hostname = some h; epoch = some epoch }) reply
  registered d s (Registered.err status) = reject delivers d s status

  -- `Session::register`
  unfoldable pub register_frame : Dispatcher → Session → String → Turn
  unfolding registered
  register_frame d s hostname =
      registered d s (process_register hostname (is_some s.hostname) now interval)

  touch : Dispatcher → Option String → Dispatcher
  touch d none = d
  touch d (some h) = record d { registry = update_heartbeat d.registry h now }

  beaten : Dispatcher → Session → Beaten → Turn
  unfolding touch
  beaten d s (Beaten.ok reply) = send delivers (touch d s.hostname) s reply
  beaten d s (Beaten.err status) = reject delivers d s status

  -- `Session::heartbeat`
  unfoldable pub heartbeat_frame : Dispatcher → Session → Turn
  unfolding beaten
  heartbeat_frame d s = beaten d s (process_heartbeat s.hostname now)

  -- `Session::instance_status`, `instance_report` and `taint_status`
  unfoldable pub status_frame : Dispatcher → WireStatus → Dispatcher × List Sent
  status_frame d status = elim (decode_status status) [
    | none ↦ (d, [])
    | some (id, state, why, ts) ↦ handle_instance_status d id state why ts
  ]

  unfoldable pub report_frame : Dispatcher → List WireStatus → Dispatcher × List Sent
  report_frame d statuses = handle_instance_report d (decode_all statuses)

  unfoldable pub taint_frame :
      Dispatcher → Option String → Bool → String → ℤ → Dispatcher × List Sent
  taint_frame d none tainted why ts = (d, [])
  taint_frame d (some h) tainted why ts = handle_taint_status d h tainted why ts

  -- `Session::handle_frame`
  unfoldable pub handle_frame : Dispatcher → Session → Option AgentPayload → Turn
  handle_frame d s none = read_on (d, []) s
  handle_frame d s (some (register hostname)) = register_frame d s hostname
  handle_frame d s (some heartbeat) = heartbeat_frame d s
  handle_frame d s (some (fault_event id line)) = read_on (d, []) s
  handle_frame d s (some (instance_status status)) = read_on (status_frame d status) s
  handle_frame d s (some (instance_report statuses)) = read_on (report_frame d statuses) s
  handle_frame d s (some (taint_status tainted why ts)) =
      read_on (taint_frame d s.hostname tainted why ts) s

-- the end of `run`
unfoldable pub close : Dispatcher → Session → Dispatcher
close d s = elim s.hostname [
  | none ↦ d
  | some h ↦ elim s.epoch [
    | none ↦ d
    | some epoch ↦ record d { sessions = remove_if_current d.sessions h epoch }
  ]
]

-- A message that the stream yields, with its time and whether a reply to it is delivered.
pub record Message : Type 0 where
  pub now : ℤ
  pub delivers : Bool
  pub payload : Option AgentPayload

-- `run`, on the messages that the stream yields before its end
unfoldable pub run_stream : ℕ → SessionTx → Dispatcher → Session → List Message → Dispatcher
run_stream interval tx d s [] = close d s
run_stream interval tx d s (m ∷ ms) =
    let t = handle_frame interval tx m.delivers m.now d s m.payload in
    let rest = run_stream interval tx t.dispatcher t.session ms in
    elim t.flow [ continue ↦ rest | stop ↦ close t.dispatcher t.session ]
