-- ===== src/Scenarios/Stream.antt =====
-- crates/master/src/session.rs on one agent's stream.
use faultforge.Prelude.{◌≡◌, refl, Bool, true, none, some, List, [], ◌∷◌, arith}
use faultforge.Prelude.Int.{ℤ, pos}
use faultforge.Prelude.Dict.{get}
use faultforge.Master.Dispatch.Frames.{Dispatcher}
use faultforge.Master.Dispatch.Store.{IsSoundStore}
use faultforge.Proto.Messages.{AgentPayload, register, heartbeat}
use faultforge.Master.Session.{Session, fresh, Message, handle_frame, run_stream, continue}
use faultforge.Master.Session.Streams.{
  Server, Input, opens, ends, receives, serve_all, IsServed, channel,
}
use faultforge.Master.Session.Served.{serve_all-IsServed}
use faultforge.Master.Session.Leaves.{IsGone, run_stream_leaves}
use faultforge.Master.Session.Violations.{IsLegal, IsRefused, violations_stop}

abbrev idle : Dispatcher
idle = record {
  catalog = [];
  registry = [];
  sessions = record { inner = []; epochs = 0 };
  store = [];
  seq = 0;
  default_grace_secs = 10;
  deadline_margin_ms = pos 30000;
}

abbrev at : ℤ → AgentPayload → Message
at now payload = record { now = now; delivers = true; payload = some payload }

-- The host reconnects on a second stream before the first one ends.
abbrev reconnect : List Input
reconnect =
    opens 1
    ∷ receives 1 (at (pos 5) (register "a"))
    ∷ opens 2
    ∷ receives 2 (at (pos 9) (register "a"))
    ∷ ends 1
    ∷ receives 2 (at (pos 11) heartbeat)
    ∷ []

abbrev before : Server
before = record { dispatcher = idle; live = λ n. none }

before-IsServed : IsServed before
unfolding get
before-IsServed h epoch tx found = absurd (ground arith)

serve_all-IsServed_example :
    IsServed (serve_all (λ p. some "{}") 5 before reconnect)
    × IsSoundStore (serve_all (λ p. some "{}") 5 before reconnect).dispatcher.store
serve_all-IsServed_example =
    serve_all-IsServed (λ p. some "{}") 5 before reconnect before-IsServed tt

abbrev opened : Server
opened = record { dispatcher = idle; live = λ n. some fresh }

opened-IsServed : IsServed opened
unfolding get
opened-IsServed h epoch tx found = absurd (ground arith)

abbrev twice : List Message
twice = at (pos 5) (register "a") ∷ at (pos 9) (register "a") ∷ []

run_stream_leaves_example : IsGone (run_stream 5 (channel 1) idle fresh twice).sessions 1
run_stream_leaves_example = run_stream_leaves 5 opened 1 fresh twice refl opened-IsServed

abbrev known : Session
known = record { hostname = some "a"; epoch = some 0 }

violations_stop_example :
    ((delivers : Bool)
      → ¬ IsLegal known (some (register "a"))
      → IsRefused idle known
          (handle_frame 5 (channel 1) delivers (pos 9) idle known (some (register "a"))))
    × (IsLegal known (some (register "a"))
        → (handle_frame 5 (channel 1) true (pos 9) idle known (some (register "a"))).flow
          ≡ continue)
violations_stop_example = violations_stop 5 (channel 1) (pos 9) idle known (some (register "a"))
