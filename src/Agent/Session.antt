-- ===== src/Agent/Session.antt =====
-- crates/agent/src/session.rs: the agent's side of the stream, and its reconnects. What the network
-- does in one attempt is an `Attempt`: the stream's channel takes so many frames and then is gone. Durations are
-- in seconds. `Link` holds what outlives an attempt, and the frames that streams have accepted.
pub mod Ledger
pub mod Kept
pub mod Waits
use Prim.Native.Nat.{min}
use faultforge.Prelude.{
  ℕ, zero, suc, ◌+◌, ◌*◌, String, Bool, true, false, Option, none, some, List, [], ◌∷◌, ◌++◌, ◌==◌,
  if◌then◌else◌,
}
use faultforge.Prelude.Int.{ℤ}
use faultforge.Proto.Messages.{
  RunFault, AgentPayload, register, heartbeat, fault_event, instance_status, instance_report,
  taint_status,
}
use faultforge.Agent.Wait.{Conn, connected, lost}
use faultforge.Agent.Instances.{Instances, handle_run_fault, handle_abort_fault, report_frame}

-- the payloads of a `ServerMessage`; `none` is an unknown one
pub data ServerPayload : Type 0 where
  register_ack : (server_time_unix_ms : ℤ) → (heartbeat_interval_secs : ℕ) → ServerPayload
  heartbeat_ack : (server_time_unix_ms : ℤ) → ServerPayload
  run_fault : RunFault → ServerPayload
  abort_fault : (instance_id : String) → ServerPayload
  clear_taint : ServerPayload

pub data AgentError : Type 0 where
  zero_heartbeat_interval unexpected_message stream_closed : AgentError

-- `none` is `Ok`, and the interval goes with it
pub data AckResult : Type 0 where
  ok : (interval_secs : ℕ) → AckResult
  err : AgentError → AckResult

unfoldable pub interpret_register_ack : Option ServerPayload → AckResult
interpret_register_ack (some (register_ack time interval)) =
    if interval == 0 then err zero_heartbeat_interval else ok interval
interpret_register_ack _ = err unexpected_message

unfoldable pub next_backoff : ℕ → ℕ
next_backoff current = min (current * 2) 30

-- The state of `run_agent` that the sends of a session touch. `room` is how many more frames the
-- stream's outbound channel takes, which holds up to 64; `accepted` are the frames that it took, in
-- order. A frame that it took may still be in it when the stream breaks, and is then lost.
pub record Link : Type 0 where
  pub room : ℕ
  pub startup : List AgentPayload
  pub carry : Option AgentPayload
  pub out : List AgentPayload
  pub accepted : List AgentPayload
  pub instances : Instances

abbrev pub is_cheap : AgentPayload → Bool
is_cheap heartbeat = true
is_cheap (register _) = true
is_cheap _ = false

abbrev pub carried : AgentPayload → Option AgentPayload → Option AgentPayload
carried frame carry = if is_cheap frame then carry else some frame

-- the stream's channel takes a frame
abbrev pub take_frame : ℕ → AgentPayload → Link → Link
take_frame room frame l = record l { room = room; accepted = l.accepted ++ frame ∷ [] }

-- `send_frame`, and whether it returned `Ok`
unfoldable pub send_frame : AgentPayload → Link → Link × Bool
send_frame frame l = elim l.room [
  | zero ↦ (record l { carry = carried frame l.carry }, false)
  | suc room ↦ (take_frame room frame l, true)
]

-- the `while` loop over the startup frames, with `send_frame_keeping`
unfoldable pub send_startup : List AgentPayload → Link → Link × Bool
send_startup [] l = (record l { startup = [] }, true)
send_startup (f ∷ fs) l = elim l.room [
  | zero ↦ (record l { startup = f ∷ fs }, false)
  | suc room ↦ send_startup fs (take_frame room f l)
]

-- the frame that an earlier session left
unfoldable pub send_carry : Link → Link × Bool
send_carry l = elim l.carry [
  | none ↦ (l, true)
  | some frame ↦ send_frame frame (record l { carry = none })
]

-- What the `select!` of the session's loop finds ready.
pub data Ready : Type 0 where
  inbound : Option ServerPayload → Ready
  tick outbound : Ready

-- `dispatch`; the other frames are logged. `handle_clear_taint` is a task beside the session.
unfoldable pub dispatch : Option ServerPayload → Instances → Instances
dispatch (some (run_fault run)) sup = handle_run_fault sup run
dispatch (some (abort_fault id)) sup = handle_abort_fault sup id
dispatch _ sup = sup

-- the frame at the head of the outbound channel, if there is one
send_outbound : List AgentPayload → Link → Link × Bool
send_outbound [] l = (l, true)
send_outbound (f ∷ fs) l = send_frame f (record l { out = fs })

unfoldable pub handle_ready : Ready → Link → Link × Bool
unfolding send_outbound
handle_ready (inbound payload) l = (record l { instances = dispatch payload l.instances }, true)
handle_ready tick l = send_frame heartbeat l
handle_ready outbound l = send_outbound l.out l

-- the loop of `run_session`, until a send fails or the stream closes
unfoldable pub session_loop : List Ready → Link → Link
session_loop [] l = l
session_loop (r ∷ rs) l =
    let (l', sent) = handle_ready r l in let rest = session_loop rs l' in if sent then rest else l'

-- the sends after the registration, each only if the one before it went out
unfoldable pub reconcile : AgentPayload → AgentPayload → Link → Link × Bool
reconcile report taint l =
    let (l1, sent1) = send_frame report l in
    let (l2, sent2) = send_frame taint l1 in
    let (l3, sent3) = send_startup l2.startup l2 in
    let (l4, sent4) = send_carry l3 in
    if sent1
    then (if sent2 then (if sent3 then (l4, sent4) else (l3, false)) else (l2, false))
    else (l1, false)

-- What the network does in one attempt: the connection is made or not, the stream takes
-- `room` frames, answers with `opening`, and then the loop finds `events`, until the stream closes.
pub record Attempt : Type 0 where
  pub connects : Bool
  pub room : ℕ
  pub opening : List (Option ServerPayload)
  pub taint : AgentPayload
  pub events : List Ready
  pub now : ℤ

-- the loop that awaits the `RegisterAck`
unfoldable pub await_ack : List (Option ServerPayload) → AckResult
await_ack [] = err stream_closed
await_ack (some (register_ack time interval) ∷ _) =
    interpret_register_ack (some (register_ack time interval))
await_ack (_ ∷ payloads) = await_ack payloads

-- `slept` is how many seconds the loop has slept between its attempts.
pub record AgentState : Type 0 where
  pub link : Link
  pub conn : Conn
  pub backoff : ℕ
  pub slept : ℕ

-- a registered session, to its end
abbrev pub registered_session : String → Attempt → AgentState → AgentState
registered_session hostname a s =
    let (l, sent) =
      reconcile (instance_report (report_frame s.link.instances a.now)) a.taint s.link in
    record s { link = if sent then session_loop a.events l else l; conn = connected; backoff = 1 }

acknowledged : String → Attempt → AgentState → AckResult → AgentState
acknowledged hostname a s (err _) = s
acknowledged hostname a s (ok _) = registered_session hostname a s

-- `run_session`, for an address that parses
unfoldable pub run_session : String → Attempt → AgentState → AgentState
unfolding acknowledged
run_session hostname a s =
    let (l, sent) = send_frame (register hostname) (record s.link { room = a.room }) in
    let s' : AgentState = record s { link = l } in
    if a.connects
    then (if sent then acknowledged hostname a s' (await_ack a.opening) else s')
    else s

abbrev pub loss : Conn → ℤ → Conn
loss connected now = lost now
loss (lost since) now = lost since

-- one round of the loop of `run_agent`, where the session is to be retried
unfoldable pub attempt : String → Attempt → AgentState → AgentState
attempt hostname a s =
    let s' = run_session hostname a s in
    record s' {
      conn = loss s'.conn a.now;
      backoff = next_backoff s'.backoff;
      slept = s'.slept + s'.backoff;
    }
