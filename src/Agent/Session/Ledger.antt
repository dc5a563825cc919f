-- ===== src/Agent/Session/Ledger.antt =====
-- crates/agent/src/session.rs: the frames that a link has taken and those that wait, through its sends.
use faultforge.Prelude.{
  ℕ, zero, suc, ◌≡◌, ◌⊎◌, ◌∙◌, refl, sym, ap, true, Option, none, some, List, [], ◌∷◌, ◌++◌,
  if◌then◌else◌, Bool-cases, inl, inr, arith,
}
use mathlib.Core.List.{append_assoc}
use faultforge.Proto.Messages.{AgentPayload, heartbeat}
use faultforge.Agent.Session.{
  Link, is_cheap, carried, take_frame, send_frame, send_startup, Ready, inbound, tick, outbound,
  handle_ready, session_loop,
}

-- The frames that are worth a retry.
abbrev pub worthy : List AgentPayload → List AgentPayload
worthy [] = []
worthy (f ∷ fs) = let rest = worthy fs in if is_cheap f then rest else f ∷ rest

abbrev pub listed : Option AgentPayload → List AgentPayload
listed none = []
listed (some f) = f ∷ []

-- The frames that wait: those of the replay, the one that an earlier session left, and the outbound.
abbrev pub waiting : Link → List AgentPayload
waiting l = l.startup ++ (listed l.carry ++ l.out)

-- What is accepted and what waits, in this order.
abbrev pub ledger : Link → List AgentPayload
ledger l = worthy (l.accepted ++ waiting l)

pub worthy-append : (fs gs : List AgentPayload) → worthy (fs ++ gs) ≡ worthy fs ++ worthy gs
worthy-append [] gs = refl
worthy-append (f ∷ fs) gs = ground (arith, worthy-append fs gs)

pub ℕ-cases : (n : ℕ) → (n ≡ zero) ⊎ ((m : ℕ) × (n ≡ suc m))
ℕ-cases zero = inl refl
ℕ-cases (suc m) = inr (m, refl)

pub ledger-send_startup :
    (fs : List AgentPayload) (l : Link)
    → worthy ((send_startup fs l).0.accepted ++ waiting (send_startup fs l).0)
      ≡ worthy (l.accepted ++ (fs ++ (listed l.carry ++ l.out)))
unfolding send_startup
ledger-send_startup [] l = refl
ledger-send_startup (f ∷ fs) l = elim (ℕ-cases l.room) [
  | inl gone ↦ rw (gone, send_startup) refl
  | inr (room, up) ↦
      rw (up, send_startup)
        (ledger-send_startup fs (take_frame room f l)
          ∙ ap worthy (append_assoc l.accepted (f ∷ []) (fs ++ (listed l.carry ++ l.out))))
]

-- Nothing waits but the outbound frames.
abbrev pub settled : Link → Link
settled l = record l { startup = []; carry = none }

worthy-carried :
    (f : AgentPayload) (fs : List AgentPayload)
    → worthy (listed (carried f none) ++ fs) ≡ worthy (f ∷ fs)
worthy-carried f fs = ground arith

pub ledger-send_frame :
    (f : AgentPayload) (l : Link)
    → ledger (send_frame f (settled l)).0 ≡ worthy (l.accepted ++ f ∷ l.out)
unfolding send_frame
ledger-send_frame f l = elim (ℕ-cases l.room) [
  | inl gone ↦
      rw (gone, send_frame)
        (worthy-append l.accepted (listed (carried f none) ++ l.out)
          ∙ (ap (λ fs. worthy l.accepted ++ fs) (worthy-carried f l.out)
              ∙ sym (worthy-append l.accepted (f ∷ l.out))))
  | inr (room, up) ↦ rw (up, send_frame) (ap worthy (append_assoc l.accepted (f ∷ []) l.out))
]

-- A send that goes out leaves nothing behind.
pub settled-send_frame :
    (f : AgentPayload) (l : Link)
    → (send_frame f (settled l)).1 ≡ true
    → settled (send_frame f (settled l)).0 ≡ (send_frame f (settled l)).0
unfolding send_frame
settled-send_frame f l h = elim (ℕ-cases l.room) [
  | inl gone ↦ absurd (ground arith)
  | inr (room, up) ↦ rw (up, send_frame) refl
]

ledger-handle_ready :
    (r : Ready) (l : Link) → ledger (handle_ready r (settled l)).0 ≡ ledger (settled l)
unfolding handle_ready
ledger-handle_ready (inbound p) l = refl
ledger-handle_ready tick l =
    ledger-send_frame heartbeat l
    ∙ (worthy-append l.accepted (heartbeat ∷ l.out) ∙ sym (worthy-append l.accepted l.out))
ledger-handle_ready outbound l = outbound_kept l.out
  where
    outbound_kept :
        (fs : List AgentPayload)
        → ledger (handle_ready outbound (settled (record l { out = fs }))).0
          ≡ worthy (l.accepted ++ fs)
    outbound_kept [] = refl
    outbound_kept (f ∷ fs) = ledger-send_frame f (record l { out = fs })

settled-handle_ready :
    (r : Ready) (l : Link)
    → (handle_ready r (settled l)).1 ≡ true
    → settled (handle_ready r (settled l)).0 ≡ (handle_ready r (settled l)).0
unfolding handle_ready
settled-handle_ready (inbound p) l h = refl
settled-handle_ready tick l h = settled-send_frame heartbeat l h
settled-handle_ready outbound l h = settled_outbound l.out h
  where
    settled_outbound :
        (fs : List AgentPayload)
        → (handle_ready outbound (settled (record l { out = fs }))).1 ≡ true
        → settled (handle_ready outbound (settled (record l { out = fs }))).0
          ≡ (handle_ready outbound (settled (record l { out = fs }))).0
    settled_outbound [] sent = refl
    settled_outbound (f ∷ fs) sent = settled-send_frame f (record l { out = fs }) sent

pub ledger-session_loop :
    (rs : List Ready) (l : Link) → ledger (session_loop rs (settled l)) ≡ ledger (settled l)
unfolding session_loop
ledger-session_loop [] l = refl
ledger-session_loop (r ∷ rs) l = elim (Bool-cases (handle_ready r (settled l)).1) [
  | inr fails ↦ rw (fails, session_loop) (ledger-handle_ready r l)
  | inl sent ↦
      let l' = (handle_ready r (settled l)).0 in
      let same = settled-handle_ready r l sent in
      rw (sent, session_loop)
        (ap (λ k. ledger (session_loop rs k)) (sym same)
          ∙ (ledger-session_loop rs l' ∙ (ap ledger same ∙ ledger-handle_ready r l)))
]
