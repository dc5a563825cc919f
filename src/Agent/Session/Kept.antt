-- ===== src/Agent/Session/Kept.antt =====
-- crates/agent/src/session.rs: which frames a session keeps, and which it loses.
use faultforge.Prelude.{
  ℕ, suc, ◌≡◌, ◌∙◌, refl, sym, ap, String, Bool, true, false, Option, none, some, List, [], ◌∷◌,
  ◌++◌, if◌then◌else◌, Bool-cases, inl, inr, arith,
}
use mathlib.Core.Path.{subst}
use mathlib.Core.List.{append_assoc}
use faultforge.Proto.Messages.{AgentPayload, register, instance_report}
use faultforge.Agent.Instances.{report_frame}
use faultforge.Agent.Session.{
  Link, is_cheap, take_frame, send_frame, send_startup, send_carry, Ready, session_loop, reconcile,
  Attempt, AgentState, registered_session, ok, await_ack, run_session,
}
use faultforge.Agent.Session.Ledger.{
  worthy, waiting, ledger, settled, worthy-append, ℕ-cases, ledger-send_startup, ledger-send_frame,
  settled-send_frame, ledger-session_loop,
}

-- The startup frames go out in full or stay, with what waits behind them.
emptied-send_startup :
    (fs : List AgentPayload) (l : Link)
    → (send_startup fs l).1 ≡ true
    → ((send_startup fs l).0.startup ≡ []) × ((send_startup fs l).0.carry ≡ l.carry)
unfolding send_startup
emptied-send_startup [] l h = (refl, refl)
emptied-send_startup (f ∷ fs) l h = elim (ℕ-cases l.room) [
  | inl gone ↦ absurd (ground arith)
  | inr (room, up) ↦
      rw (up, send_startup)
        (emptied-send_startup fs (take_frame room f l) (rw (up, send_startup) at h))
]

ledger-send_carry :
    (c : Option AgentPayload) (l : Link)
    → let sent = send_carry (record l { startup = []; carry = c }) in
      (ledger sent.0 ≡ ledger (record l { startup = []; carry = c }))
      × (sent.1 ≡ true → settled sent.0 ≡ sent.0)
unfolding send_carry
ledger-send_carry none l = (refl, λ h. refl)
ledger-send_carry (some f) l = (ledger-send_frame f l, settled-send_frame f l)

-- A step that keeps the ledger, and leaves nothing behind where it succeeds.
abbrev IsKept : Link → Link × Bool → Type 0
IsKept l sent = (ledger sent.0 ≡ ledger l) × (sent.1 ≡ true → settled sent.0 ≡ sent.0)

-- The startup frames, and then the one that an earlier session left.
abbrev drained : Link → Link × Bool
drained l =
    let l' = (send_startup l.startup l).0 in
    if (send_startup l.startup l).1 then send_carry l' else (l', false)

drained-IsKept : (l : Link) → IsKept l (drained l)
drained-IsKept l = elim (Bool-cases (send_startup l.startup l).1) [
  | inr fails ↦ rw fails (ledger-send_startup l.startup l, λ h. absurd (ground arith))
  | inl goes ↦
      let l' : Link = (send_startup l.startup l).0 in
      let (empty_, same) = emptied-send_startup l.startup l goes in
      let cleared : record l' { startup = [] } ≡ l' =
        ap (λ s. record l' { startup = s }) (sym empty_) in
      let (kept, settles) =
        subst (λ k. IsKept k (send_carry k)) cleared (ledger-send_carry l'.carry l') in
      rw goes (kept ∙ ledger-send_startup l.startup l, settles)
]

ledger-rest :
    (rs : List Ready) (l : Link)
    → ledger (if (drained l).1 then session_loop rs (drained l).0 else (drained l).0) ≡ ledger l
ledger-rest rs l = elim (Bool-cases (drained l).1) [
  | inr fails ↦ rw fails (drained-IsKept l).0
  | inl goes ↦
      let same = (drained-IsKept l).1 goes in
      rw goes (
        ap (λ k. ledger (session_loop rs k)) (sym same)
        ∙ (ledger-session_loop rs (drained l).0 ∙ (ap ledger same ∙ (drained-IsKept l).0)))
]

-- Once the stream's channel has accepted the report and the taint status: however the session goes on
-- and whenever a send first fails, every frame that is worth a retry either was accepted by the
-- channel or still waits with the agent, once. What was accepted and what waits are together, and in
-- this order, what was accepted before, the report, the taint status, the frames of the replay, the
-- frame that an earlier session left, and the outbound frames. Whether the network then delivers
-- what the channel accepted is not stated.
pub session_keeps :
    (hostname : String) (a : Attempt) (s : AgentState) (room : ℕ)
    → s.link.room ≡ suc (suc room)
    → is_cheap a.taint ≡ false
    → ledger (registered_session hostname a s).link
      ≡ worthy s.link.accepted
        ++ (instance_report (report_frame s.link.instances a.now)
            ∷ a.taint
            ∷ worthy (waiting s.link))
unfolding reconcile send_frame
session_keeps hostname a s room up t =
    let report = instance_report (report_frame s.link.instances a.now) in
    let l : Link = record s.link {
      room = room;
      accepted = s.link.accepted ++ report ∷ [] ++ a.taint ∷ [];
    } in
    rw (up, reconcile)
      (ledger-rest a.events l
        ∙ (ap worthy (
              append_assoc (s.link.accepted ++ report ∷ []) (a.taint ∷ []) (waiting s.link)
              ∙ append_assoc s.link.accepted (report ∷ []) (a.taint ∷ waiting s.link))
            ∙ (worthy-append s.link.accepted (report ∷ a.taint ∷ waiting s.link) ∙ rw t refl)))

-- Where the stream's channel takes the Register and no frame after it, but its acknowledgement comes,
-- the frame that an earlier session left is replaced by the report, whatever it is: the channel did
-- not take it, and nothing keeps it.
pub stranded_is_lost :
    (hostname : String) (a : Attempt) (s : AgentState) (interval : ℕ)
    → a.connects ≡ true
    → a.room ≡ 1
    → await_ack a.opening ≡ ok interval
    → (run_session hostname a s).link ≡ record s.link {
      room = 0;
      carry = some (instance_report (report_frame s.link.instances a.now));
      accepted = s.link.accepted ++ register hostname ∷ [];
    }
unfolding run_session reconcile send_frame
stranded_is_lost hostname a s interval up one acked =
    rw (up, one, acked, run_session, reconcile, send_frame) refl
