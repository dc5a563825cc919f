-- ===== src/Master/Session/Turns.antt =====
-- crates/master/src/session.rs: a frame changes the session map only where it registers.
use faultforge.Prelude.{
  ℕ, ◌≡◌, ◌⊎◌, ◌∙◌, refl, String, Bool, true, false, Option, none, some, List, [], ◌∷◌,
  Option-cases, inl, inr,
}
use faultforge.Prelude.Int.{ℤ}
use faultforge.Prelude.Dict.{get}
use faultforge.Fault.State.{InstanceState}
use faultforge.Proto.Hostname.{parse}
use faultforge.Master.Sessions.{SessionTx, insert_session}
use faultforge.Master.Experiment.{Experiment, owning_experiment_id}
use faultforge.Master.Dispatch.Accept.{parse_cases}
use faultforge.Master.Dispatch.Frames.{Dispatcher}
use faultforge.Master.Dispatch.Handlers.{
  with_record, handle_instance_status, handle_instance_report, handle_taint_status,
}
use faultforge.Proto.Messages.{WireStatus}
use faultforge.Proto.Messages.{
  AgentPayload, register, heartbeat, fault_event, instance_status, instance_report, taint_status,
}
use faultforge.Master.Session.{
  decode_status, decode_all, Decoded, process_register, process_heartbeat, Session, Turn, send,
  reject, read_on, status_frame, report_frame, taint_frame, register_frame, heartbeat_frame,
  handle_frame,
}

pub with_record-sessions :
    (d : Dispatcher) (id : String) (update : Experiment → Experiment × List (String × String))
    → (with_record d id update).0.sessions ≡ d.sessions
unfolding with_record
with_record-sessions d id update = elim (Option-cases (get id d.store)) [
  | inl missing ↦ rw (missing, with_record) refl
  | inr (e, found) ↦ rw (found, with_record) refl
]

status-sessions :
    (d : Dispatcher) (id : String) (state : InstanceState) (why : String) (ts : ℤ)
    → (handle_instance_status d id state why ts).0.sessions ≡ d.sessions
unfolding handle_instance_status
status-sessions d id state why ts = elim (Option-cases (owning_experiment_id id)) [
  | inl nobody ↦ rw (nobody, handle_instance_status) refl
  | inr (owner, is) ↦ rw (is, handle_instance_status) (with_record-sessions d owner _)
]

report-sessions :
    (d : Dispatcher) (statuses : List Decoded)
    → (handle_instance_report d statuses).0.sessions ≡ d.sessions
unfolding handle_instance_report
report-sessions d [] = refl
report-sessions d ((id, state, why, ts) ∷ statuses) =
    report-sessions (handle_instance_status d id state why ts).0 statuses
    ∙ status-sessions d id state why ts

taint-sessions :
    (d : Dispatcher) (host : String) (tainted : Bool) (why : String) (ts : ℤ)
    → (handle_taint_status d host tainted why ts).0.sessions ≡ d.sessions
unfolding handle_taint_status
taint-sessions d host true why ts = refl
taint-sessions d host false why ts = refl

-- A frame leaves the session map and the session alone, or registers a stream that had no host.
abbrev pub Quiet : Dispatcher → Session → Turn → Type 0
Quiet d s t = (t.dispatcher.sessions ≡ d.sessions) × (t.session ≡ s)

abbrev pub Registers : SessionTx → Dispatcher → Session → Turn → Type 0
Registers tx d s t =
    (h : String) × (s.hostname ≡ none)
    × (t.dispatcher.sessions ≡ (insert_session d.sessions h tx).0)
    × (t.session ≡ record { hostname = some h; epoch = some (insert_session d.sessions h tx).1 })

module _ (interval : ℕ) (tx : SessionTx) (delivers : Bool) (now : ℤ) where
  register_turn :
      (d : Dispatcher) (s : Session) (h : String)
      → let t = register_frame interval tx delivers now d s h in Quiet d s t ⊎ Registers tx d s t
  unfolding register_frame send reject process_register insert_session
  register_turn d s h = elim (Option-cases s.hostname) [
    | inr (k, is) ↦ rw (is, process_register, register_frame) (inl (refl, refl))
    | inl nobody ↦ elim (parse_cases (parse h)) [
      | inl (x, bad) ↦ rw (nobody, bad, process_register, register_frame) (inl (refl, refl))
      | inr (k, good) ↦
          rw (good, process_register, nobody, register_frame) (inr (k, refl, refl, refl))
    ]
  ]

  heartbeat_turn :
      (d : Dispatcher) (s : Session) → Quiet d s (heartbeat_frame interval tx delivers now d s)
  unfolding heartbeat_frame send reject process_heartbeat
  heartbeat_turn d s = elim (Option-cases s.hostname) [
    | inl nobody ↦ rw (nobody, heartbeat_frame, process_heartbeat) (refl, refl)
    | inr (h, is) ↦ rw (is, heartbeat_frame, process_heartbeat) (refl, refl)
  ]

  status_turn :
      (d : Dispatcher) (status : WireStatus)
      → (status_frame interval tx delivers now d status).0.sessions ≡ d.sessions
  unfolding status_frame
  status_turn d status = elim (Option-cases (decode_status status)) [
    | inl bad ↦ rw (bad, status_frame) refl
    | inr ((id, state, why, ts), good) ↦ rw (good, status_frame) (status-sessions d id state why ts)
  ]

  taint_turn :
      (d : Dispatcher) (host : Option String) (tainted : Bool) (why : String) (ts : ℤ)
      → (taint_frame interval tx delivers now d host tainted why ts).0.sessions ≡ d.sessions
  unfolding taint_frame
  taint_turn d none tainted why ts = refl
  taint_turn d (some h) tainted why ts = taint-sessions d h tainted why ts

  pub frame_turn :
      (d : Dispatcher) (s : Session) (p : Option AgentPayload)
      → let t = handle_frame interval tx delivers now d s p in Quiet d s t ⊎ Registers tx d s t
  unfolding handle_frame read_on report_frame
  frame_turn d s none = inl (refl, refl)
  frame_turn d s (some (register h)) = register_turn d s h
  frame_turn d s (some heartbeat) = inl (heartbeat_turn d s)
  frame_turn d s (some (fault_event id line)) = inl (refl, refl)
  frame_turn d s (some (instance_status status)) = inl (status_turn d status, refl)
  frame_turn d s (some (instance_report statuses)) =
      inl (report-sessions d (decode_all statuses), refl)
  frame_turn d s (some (taint_status tainted why ts)) =
      inl (taint_turn d s.hostname tainted why ts, refl)
