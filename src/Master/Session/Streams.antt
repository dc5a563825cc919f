-- ===== src/Master/Session/Streams.antt =====
-- crates/master/src/session.rs: the streams of all agents at once, over one dispatcher. Each stream is
-- a number, and its frames interleave with those of the others, with the operator's calls and with
-- the deadlines, in any order. A dispatcher's call is one step: it runs under the locks.
use faultforge.Prelude.{
  ℕ, ◌≡◌, String, true, Option, none, some, List, [], ◌∷◌, ◌==◌, if◌then◌else◌,
}
use faultforge.Prelude.Int.{ℤ}
use faultforge.Prelude.Dict.{get}
use faultforge.Fault.Params.{Params}
use faultforge.Master.Sessions.{SessionTx}
use faultforge.Master.Experiment.{ExperimentDefinition}
use faultforge.Master.Dispatch.Frames.{Dispatcher}
use faultforge.Master.Dispatch.Start.{start_experiment}
use faultforge.Master.Dispatch.Handlers.{halt, resolve_deadline}
use faultforge.Master.Session.{continue, stop, Session, fresh, Turn, handle_frame, close, Message}

-- The dispatcher, and the session of each stream that is open.
pub record Server : Type 0 where
  pub dispatcher : Dispatcher
  pub live : ℕ → Option Session

pub data Input : Type 0 where
  opens ends : (stream : ℕ) → Input
  receives : (stream : ℕ) → Message → Input
  starts_experiment : ExperimentDefinition → (now : ℤ) → Input
  halts_experiment : (id reason : String) → (now : ℤ) → Input
  meets_deadline : (id : String) → (now : ℤ) → Input

abbrev pub put : (ℕ → Option Session) → ℕ → Option Session → ℕ → Option Session
put live n s k = if k == n then s else live k

-- The channel of a stream while its task runs.
-- The sender of stream `n`. That its receiver may go before the stream's task ends is left out here.
abbrev pub channel : ℕ → SessionTx
channel n = record { stream = n; open_ = true }

unfoldable pub close_stream : Server → ℕ → Session → Server
close_stream srv n s = record { dispatcher = close srv.dispatcher s; live = put srv.live n none }

module _ (encode : Params → Option String) (interval : ℕ) where
  unfoldable pub after_turn : Server → ℕ → Turn → Server
  after_turn srv n t =
      let next : Server = record {
        dispatcher = t.dispatcher;
        live = put srv.live n (some t.session);
      } in
      elim t.flow [ continue ↦ next | stop ↦ close_stream next n t.session ]

  unfoldable pub serve : Server → Input → Server
  serve srv (opens n) = elim (srv.live n) [
    | none ↦ record srv { live = put srv.live n (some fresh) }
    | some _ ↦ srv
  ]
  serve srv (ends n) = elim (srv.live n) [ none ↦ srv | some s ↦ close_stream srv n s ]
  serve srv (receives n m) = elim (srv.live n) [
    | none ↦ srv
    | some s ↦
        after_turn srv n
          (handle_frame interval (channel n) m.delivers m.now srv.dispatcher s m.payload)
  ]
  serve srv (starts_experiment definition now) = record srv {
    dispatcher = (start_experiment encode srv.dispatcher definition now).0;
  }
  serve srv (halts_experiment id why now) = record srv {
    dispatcher = (halt srv.dispatcher id why now).0;
  }
  serve srv (meets_deadline id now) = record srv {
    dispatcher = (resolve_deadline srv.dispatcher id now).0;
  }

  unfoldable pub serve_all : Server → List Input → Server
  serve_all srv [] = srv
  serve_all srv (i ∷ is) = serve_all (serve srv i) is

-- Every entry of the session map is that of an open stream, which registered as that host and got
-- that epoch.
abbrev pub IsServed : Server → Type 0
IsServed srv =
    (h : String) (epoch : ℕ) (tx : SessionTx)
    → get h srv.dispatcher.sessions.inner ≡ some (epoch, tx)
    → (srv.live tx.stream ≡ some (record { hostname = some h; epoch = some epoch }))
      × (tx.open_ ≡ true)
