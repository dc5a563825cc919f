-- ===== src/Master/Dispatch/Frames.antt =====
-- crates/master/src/dispatch.rs: the dispatcher's state, and the frames that it sends. A frame for a
-- host with no open session is not delivered.
use faultforge.Prelude.{ℕ, String, Option, none, some, List, [], ◌∷◌, ◌++◌, if◌then◌else◌}
use faultforge.Prelude.Int.{ℤ}
use faultforge.Proto.Messages.{RunFault}
use faultforge.Master.Catalog.{Catalog}
use faultforge.Master.Registry.{Registry}
use faultforge.Master.Sessions.{SessionMap, SessionTx, sender}
use faultforge.Master.Experiment.{Experiment}

pub data ServerMessage : Type 0 where
  run_fault : RunFault → ServerMessage
  abort_fault : String → ServerMessage
  clear_taint : ServerMessage

pub record Dispatcher : Type 0 where
  pub catalog : Catalog
  pub registry : Registry
  pub sessions : SessionMap
  pub store : List (String × Experiment)
  pub seq : ℕ
  pub default_grace_secs : ℕ
  pub deadline_margin_ms : ℤ

-- A frame, and the host whose stream took it.
abbrev pub Sent : Type 0
Sent = String × ServerMessage

unfoldable pub deliver : Option SessionTx → String → ServerMessage → List Sent
deliver none hostname frame = []
deliver (some tx) hostname frame = if tx.open_ then (hostname, frame) ∷ [] else []

unfoldable pub send_to_host : SessionMap → String → ServerMessage → List Sent
unfolding deliver
send_to_host sessions hostname frame = deliver (sender sessions hostname) hostname frame

unfoldable pub send_aborts : SessionMap → List (String × String) → List Sent
send_aborts sessions [] = []
send_aborts sessions ((hostname, id) ∷ aborts) =
    send_to_host sessions hostname (abort_fault id) ++ send_aborts sessions aborts
