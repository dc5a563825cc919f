-- ===== src/Master/Session/Violations.antt =====
-- crates/master/src/session.rs: the frames that end a stream.
use faultforge.Prelude.{
  ℕ, ◌≡◌, refl, String, Bool, true, Option, none, some, [], is_some, Option-cases, inl, inr, arith,
}
use faultforge.Prelude.Int.{ℤ}
use faultforge.Proto.Hostname
use faultforge.Proto.Hostname.{parse}
use faultforge.Master.Sessions.{SessionTx}
use faultforge.Master.Dispatch.Accept.{parse_cases}
use faultforge.Master.Dispatch.Frames.{Dispatcher}
use faultforge.Proto.Messages.{
  AgentPayload, register, heartbeat, fault_event, instance_status, instance_report, taint_status,
}
use faultforge.Master.Session.{
  process_register, process_heartbeat, continue, stop, Session, Turn, send, reject, read_on,
  register_frame, heartbeat_frame, handle_frame,
}

-- The protocol: a stream registers once, with a hostname, and beats only after that.
abbrev pub IsLegal : Session → Option AgentPayload → Type 0
IsLegal s (some (register h)) = (s.hostname ≡ none) × (k : String) × (parse h ≡ Hostname.ok k)
IsLegal s (some heartbeat) = is_some s.hostname ≡ true
IsLegal s _ = Unit

-- The stream stops, and nothing else has changed.
abbrev pub IsRefused : Dispatcher → Session → Turn → Type 0
IsRefused d s t = (t.flow ≡ stop) × (t.dispatcher ≡ d) × (t.session ≡ s) × (t.sent ≡ [])

module _ (interval : ℕ) (tx : SessionTx) (now : ℤ) (d : Dispatcher) (s : Session) where
  register-IsRefused :
      (delivers : Bool) (h : String)
      → ¬ IsLegal s (some (register h))
      → IsRefused d s (register_frame interval tx delivers now d s h)
  unfolding register_frame reject process_register
  register-IsRefused delivers h bad = elim (Option-cases s.hostname) [
    | inr (k, is) ↦ rw (is, process_register, register_frame) (refl, refl, refl, refl)
    | inl nobody ↦ elim (parse_cases (parse h)) [
      | inl (x, why) ↦ rw (nobody, why, process_register, register_frame) (refl, refl, refl, refl)
      | inr (k, good) ↦ absurd (bad (nobody, k, good))
    ]
  ]

  register_taken :
      (h : String)
      → IsLegal s (some (register h))
      → (register_frame interval tx true now d s h).flow ≡ continue
  unfolding register_frame send process_register
  register_taken h (nobody, k, good) = rw (nobody, good, process_register, register_frame) refl

  -- A second Register, a Register whose hostname does not parse, and a Heartbeat before the Register
  -- stop the stream and change nothing of the dispatcher or the session; every other frame lets the
  -- stream go on, where a reply to it is delivered.
  pub violations_stop :
      (p : Option AgentPayload)
      → ((delivers : Bool)
          → ¬ IsLegal s p
          → IsRefused d s (handle_frame interval tx delivers now d s p))
        × (IsLegal s p → (handle_frame interval tx true now d s p).flow ≡ continue)
  unfolding handle_frame read_on heartbeat_frame process_heartbeat send reject
  violations_stop none = (λ b bad. absurd (bad tt), λ _. refl)
  violations_stop (some (register h)) =
      (λ b bad. register-IsRefused b h bad, λ ok. register_taken h ok)
  violations_stop (some heartbeat) = elim (Option-cases s.hostname) [
    | inl nobody ↦
        rw (nobody, heartbeat_frame, process_heartbeat)
          (λ b bad. (refl, refl, refl, refl), λ yes. ground arith)
    | inr (k, is) ↦
        rw (is, heartbeat_frame, process_heartbeat) (λ b bad. absurd (bad refl), λ _. refl)
  ]
  violations_stop (some (fault_event id line)) = (λ b bad. absurd (bad tt), λ _. refl)
  violations_stop (some (instance_status status)) = (λ b bad. absurd (bad tt), λ _. refl)
  violations_stop (some (instance_report statuses)) = (λ b bad. absurd (bad tt), λ _. refl)
  violations_stop (some (taint_status tainted why ts)) = (λ b bad. absurd (bad tt), λ _. refl)
