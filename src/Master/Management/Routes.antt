-- ===== src/Master/Management/Routes.antt =====
-- crates/master/src/management.rs: the handler that a path with no empty segment reaches.
use faultforge.Prelude.{
  ℕ, String, Bool, false, Bool-cases, inl, inr, Option, none, some, Option-cases, is_some, [], ◌∷◌,
  ◌≡◌, refl, ap, if◌then◌else◌,
}
use faultforge.Prelude.Dict.{get}
use faultforge.Proto.Hostname.{ParseResult, ok, err, parse}
use faultforge.Master.Experiment.{Experiment, is_concluded}
use faultforge.Master.Sessions.{SessionTx, sender}
use faultforge.Master.Dispatch.Handlers.{halt, halt_outcome, relayed, relay_clear_taint}
use faultforge.Prelude.Int.{ℤ}
use faultforge.Prelude.Text.{is_empty}
use faultforge.Fault.Params.{Params}
use faultforge.Master.Dispatch.Frames.{
  Dispatcher, deliver, send_to_host, clear_taint as clear_taint_frame,
}
use faultforge.Master.Management.{
  get_, post, Extracted, unchanged, show_experiment, halt_experiment, clear_taint, run_experiment,
  on_one, on_two, on_three, route, bare, halt_status, clear_status, clear_parsed,
}

module _ (encode : Params → Option String) (d : Dispatcher) (body : Extracted) (now : ℤ) where
  pub route-halt :
      (id : String)
      → is_empty id ≡ false
      → route encode d post ("experiments" ∷ id ∷ "halt" ∷ []) body now ≡ halt_experiment d id now
  unfolding route on_three
  route-halt id h = rw (h)

  pub route-clear_taint :
      (host : String)
      → is_empty host ≡ false
      → route encode d post ("agents" ∷ host ∷ "clear-taint" ∷ []) body now ≡ clear_taint d host
  unfolding route on_three
  route-clear_taint host h = rw (h)

  pub route-show_experiment :
      (id : String)
      → is_empty id ≡ false
      → route encode d get_ ("experiments" ∷ id ∷ []) body now ≡ unchanged d (show_experiment d id)
  unfolding route on_two
  route-show_experiment id h = rw (h)

  pub route-run_experiment :
      route encode d post ("experiments" ∷ []) body now ≡ run_experiment encode d body now
  unfolding route on_one
  route-run_experiment = refl

-- the status of a halt, from what the store has under the id
abbrev pub halt_answer : Option Experiment → ℕ
halt_answer none = 404
halt_answer (some e) = if is_concluded e then 409 else 202

pub halt_experiment-answer :
    (d : Dispatcher) (id : String) (now : ℤ)
    → (halt_experiment d id now).1 ≡ bare (halt_answer (get id d.store))
unfolding halt_experiment halt halt_outcome halt_status
halt_experiment-answer d id now = elim (Option-cases (get id d.store)) [
  | inl missing ↦ rw (missing)
  | inr (e, found) ↦ elim (Bool-cases (is_concluded e)) [
    | inl over ↦ rw (found, over)
    | inr on ↦ rw (found, on)
  ]
]

-- a session of the host is there, and its channel is open
abbrev pub takes : Option SessionTx → Bool
takes none = false
takes (some tx) = tx.open_

abbrev host_answer : Dispatcher → String → ℕ
host_answer d host =
    if is_some (get host d.registry)
    then (if takes (sender d.sessions host) then 202 else 409)
    else 404

-- the status of a clear, from the host's name, the registry and the session map
abbrev pub clear_answer : Dispatcher → ParseResult → ℕ
clear_answer d (err e) = 404
clear_answer d (ok host) = host_answer d host

delivered-answer :
    (tx : Option SessionTx) (host : String)
    → clear_status (relayed (deliver tx host clear_taint_frame)) ≡ (if takes tx then 202 else 409)
unfolding clear_status relayed deliver
delivered-answer none host = refl
delivered-answer (some tx) host = elim (Bool-cases tx.open_) [
  | inl so ↦ rw (so)
  | inr not_so ↦ rw (not_so)
]

relay_clear_taint-answer :
    (d : Dispatcher) (host : String)
    → clear_status (relay_clear_taint d host).0 ≡ host_answer d host
unfolding relay_clear_taint send_to_host clear_status
relay_clear_taint-answer d host = elim (Bool-cases (is_some (get host d.registry))) [
  | inl so ↦ rw (so) (delivered-answer (sender d.sessions host) host)
  | inr not_so ↦ rw (not_so)
]

parsed-answer : (d : Dispatcher) (p : ParseResult) → (clear_parsed d p).1 ≡ bare (clear_answer d p)
unfolding clear_parsed
parsed-answer d (err e) = refl
parsed-answer d (ok host) = ap bare (relay_clear_taint-answer d host)

pub clear_taint-answer :
    (d : Dispatcher) (host : String) → (clear_taint d host).1 ≡ bare (clear_answer d (parse host))
unfolding clear_taint
clear_taint-answer d host = parsed-answer d (parse host)
