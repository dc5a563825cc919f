-- ===== src/Master/Session/Calls.antt =====
-- crates/master/src/session.rs: the calls of the dispatcher that a frame stands for.
use faultforge.Prelude.{
  ℕ, ◌≡◌, refl, String, Bool, true, false, Option, none, some, List, [], ◌∷◌, is_some, Option-cases,
  Bool-cases, inl, inr,
}
use faultforge.Prelude.Int.{ℤ}
use faultforge.Fault.Params.{Params}
use faultforge.Proto.Hostname
use faultforge.Proto.Hostname.{ParseResult, parse}
use faultforge.Master.Sessions.{SessionTx, insert_session}
use faultforge.Master.Dispatch.Accept.{parse_cases}
use faultforge.Master.Dispatch.Frames.{Dispatcher}
use faultforge.Master.Dispatch.Handlers.{handle_instance_report}
use faultforge.Master.Dispatch.Store.{Call, reports, taints, registers, beats, handle, run}
use faultforge.Proto.Messages.{WireStatus}
use faultforge.Proto.Messages.{
  AgentPayload, register, heartbeat, fault_event, instance_status, instance_report, taint_status,
}
use faultforge.Master.Session.{
  decode_status, decode_all, Decoded, process_register, process_heartbeat, Session, send, reject,
  read_on, status_frame, report_frame, taint_frame, register_frame, heartbeat_frame, handle_frame,
}

register_calls : SessionTx → ℤ → Bool → ParseResult → List Call
register_calls tx now true p = []
register_calls tx now false (Hostname.ok h) = registers h tx now ∷ []
register_calls tx now false (Hostname.err _) = []

beat_calls : ℤ → Option String → List Call
beat_calls now none = []
beat_calls now (some h) = beats h now ∷ []

status_calls : Option Decoded → List Call
status_calls none = []
status_calls (some d) = reports (d ∷ []) ∷ []

taint_calls : Option String → Bool → String → ℤ → List Call
taint_calls none tainted why ts = []
taint_calls (some h) tainted why ts = taints h tainted why ts ∷ []

-- The calls of the dispatcher that a frame stands for.
unfoldable pub frame_calls : SessionTx → ℤ → Session → Option AgentPayload → List Call
unfolding register_calls beat_calls status_calls taint_calls
frame_calls tx now s none = []
frame_calls tx now s (some (register hostname)) =
    register_calls tx now (is_some s.hostname) (parse hostname)
frame_calls tx now s (some heartbeat) = beat_calls now s.hostname
frame_calls tx now s (some (fault_event id line)) = []
frame_calls tx now s (some (instance_status status)) = status_calls (decode_status status)
frame_calls tx now s (some (instance_report statuses)) = reports (decode_all statuses) ∷ []
frame_calls tx now s (some (taint_status tainted why ts)) = taint_calls s.hostname tainted why ts

module _ (encode : Params → Option String) (interval : ℕ) (tx : SessionTx) (delivers : Bool)
    (now : ℤ) where
  register_runs :
      (d : Dispatcher) (s : Session) (h : String)
      → (register_frame interval tx delivers now d s h).dispatcher
        ≡ run encode d (register_calls tx now (is_some s.hostname) (parse h))
  unfolding register_frame register_calls run handle send reject process_register insert_session
  register_runs d s h = elim (Bool-cases (is_some s.hostname)) [
    | inl twice ↦ rw (twice, process_register, register_frame) refl
    | inr once ↦ elim (parse_cases (parse h)) [
      | inl (x, bad) ↦ rw (once, bad, process_register, register_frame) refl
      | inr (k, good) ↦ rw (once, good, process_register, register_frame) refl
    ]
  ]

  heartbeat_runs :
      (d : Dispatcher) (s : Session)
      → (heartbeat_frame interval tx delivers now d s).dispatcher
        ≡ run encode d (beat_calls now s.hostname)
  unfolding heartbeat_frame beat_calls run handle send reject process_heartbeat
  heartbeat_runs d s = elim (Option-cases s.hostname) [
    | inl nobody ↦ rw (nobody, heartbeat_frame, process_heartbeat) refl
    | inr (h, is) ↦ rw (is, heartbeat_frame, process_heartbeat) refl
  ]

  status_runs :
      (d : Dispatcher) (status : WireStatus)
      → (status_frame interval tx delivers now d status).0
        ≡ run encode d (status_calls (decode_status status))
  unfolding status_frame status_calls run handle handle_instance_report
  status_runs d status = elim (Option-cases (decode_status status)) [
    | inl bad ↦ rw (bad, status_frame) refl
    | inr (x, good) ↦ rw (good, status_frame) refl
  ]

  taint_runs :
      (d : Dispatcher) (host : Option String) (tainted : Bool) (why : String) (ts : ℤ)
      → (taint_frame interval tx delivers now d host tainted why ts).0
        ≡ run encode d (taint_calls host tainted why ts)
  unfolding taint_frame taint_calls run handle
  taint_runs d none tainted why ts = refl
  taint_runs d (some h) tainted why ts = refl

  -- What a frame does to the dispatcher is what its calls do.
  pub frame_runs :
      (d : Dispatcher) (s : Session) (p : Option AgentPayload)
      → (handle_frame interval tx delivers now d s p).dispatcher
        ≡ run encode d (frame_calls tx now s p)
  unfolding handle_frame frame_calls run handle read_on report_frame
  frame_runs d s none = refl
  frame_runs d s (some (register h)) = register_runs d s h
  frame_runs d s (some heartbeat) = heartbeat_runs d s
  frame_runs d s (some (fault_event id line)) = refl
  frame_runs d s (some (instance_status status)) = status_runs d status
  frame_runs d s (some (instance_report statuses)) = refl
  frame_runs d s (some (taint_status tainted why ts)) = taint_runs d s.hostname tainted why ts
