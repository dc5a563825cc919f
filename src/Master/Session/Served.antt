-- ===== src/Master/Session/Served.antt =====
-- crates/master/src/session.rs and dispatch.rs: what stays true while the streams interleave.
use faultforge.Prelude.{
  ℕ, ◌≡◌, ◌⊎◌, refl, String, Option, some, List, [], ◌∷◌, Option-cases, inl, inr, eq_iff, arith,
}
use faultforge.Prelude.Int.{ℤ}
use faultforge.Prelude.Dict.{get-insert, get-remove}
use faultforge.Fault.Params.{Params}
use faultforge.Master.Sessions.{insert_session, remove_if_current}
use faultforge.Master.Experiment.{ExperimentDefinition, ValidationFailure}
use faultforge.Master.Experiment.Validate.{validate}
use faultforge.Master.Dispatch.Frames.{Dispatcher}
use faultforge.Master.Dispatch.Start.{start_experiment, gather_host_facts}
use faultforge.Master.Dispatch.Handlers.{halt, resolve_deadline}
use faultforge.Master.Dispatch.Store.{
  IsSoundStore, starts, halts, expires, handle, handle-IsSoundStore, run-IsSoundStore,
}
use faultforge.Master.Session.{Flow, continue, stop, Session, Turn, close}
use faultforge.Master.Session.Calls.{frame_calls, frame_runs}
use faultforge.Master.Session.Turns.{Quiet, Registers, frame_turn, with_record-sessions}
use faultforge.Master.Session.Streams.{
  Server, Input, opens, ends, receives, starts_experiment, halts_experiment, meets_deadline, put,
  channel, close_stream, after_turn, serve, serve_all, IsServed,
}

-- An open stream with no host owns no entry; it can register, and then owns one.
pub Registers-IsServed :
    (srv : Server) (n : ℕ) (s : Session) (t : Turn)
    → srv.live n ≡ some s
    → Registers (channel n) srv.dispatcher s t
    → IsServed srv
    → IsServed (record { dispatcher = t.dispatcher; live = put srv.live n (some t.session) })
unfolding insert_session
Registers-IsServed srv n s t is (k, nobody, map, session) served h epoch tx found = ground (
  arith,
  get-insert k h (srv.dispatcher.sessions.epochs, channel n) srv.dispatcher.sessions.inner,
  eq_iff k h,
  served h epoch tx,
)

pub Quiet-IsServed :
    (srv : Server) (n : ℕ) (s : Session) (t : Turn)
    → srv.live n ≡ some s
    → Quiet srv.dispatcher s t
    → IsServed srv
    → IsServed (record { dispatcher = t.dispatcher; live = put srv.live n (some t.session) })
Quiet-IsServed srv n s t is (map, same) served h epoch tx found = ground (arith, served h epoch tx)

-- A stream that ends takes its own entry along.
pub close-IsServed :
    (srv : Server) (n : ℕ) (s : Session)
    → srv.live n ≡ some s
    → IsServed srv
    → IsServed (close_stream srv n s)
unfolding close_stream close remove_if_current
close-IsServed srv n s is served h epoch tx found = elim (Option-cases s.hostname) [
  | inl nobody ↦ ground (arith, served h epoch tx)
  | inr (k, host) ↦ elim (Option-cases s.epoch) [
    | inl never ↦ ground (arith, served h epoch tx)
    | inr (e, current) ↦
        ground (arith, served h epoch tx, get-remove k h srv.dispatcher.sessions.inner, eq_iff k h)
  ]
]

halt-sessions :
    (d : Dispatcher) (id why : String) (now : ℤ) → (halt d id why now).0.sessions ≡ d.sessions
unfolding halt
halt-sessions d id why now = with_record-sessions d id _

deadline-sessions :
    (d : Dispatcher) (id : String) (now : ℤ) → (resolve_deadline d id now).0.sessions ≡ d.sessions
unfolding resolve_deadline
deadline-sessions d id now = with_record-sessions d id _

-- A stream that ends leaves the store alone.
store_closed : (d : Dispatcher) (s : Session) → (close d s).store ≡ d.store
unfolding close
store_closed d s = ground arith

pub Flow-cases : (f : Flow) → (f ≡ continue) ⊎ (f ≡ stop)
Flow-cases continue = inl refl
Flow-cases stop = inr refl

module _ (encode : Params → Option String) (interval : ℕ) where
  start-sessions :
      (d : Dispatcher) (definition : ExperimentDefinition) (now : ℤ)
      → (start_experiment encode d definition now).0.sessions ≡ d.sessions
  unfolding start_experiment
  start-sessions d definition now =
      kept (validate definition d.catalog (gather_host_facts d definition)) refl
    where
      kept :
          (failures : List ValidationFailure)
          → validate definition d.catalog (gather_host_facts d definition) ≡ failures
          → (start_experiment encode d definition now).0.sessions ≡ d.sessions
      kept [] q = rw (q, start_experiment) refl
      kept (f ∷ fs) q = rw (q, start_experiment) refl

  turn-IsServed :
      (srv : Server) (n : ℕ) (s : Session) (t : Turn)
      → srv.live n ≡ some s
      → Quiet srv.dispatcher s t ⊎ Registers (channel n) srv.dispatcher s t
      → IsServed srv
      → IsServed (after_turn encode interval srv n t)
  unfolding after_turn
  turn-IsServed srv n s t is change served =
      let next : Server = record {
        dispatcher = t.dispatcher;
        live = put srv.live n (some t.session);
      } in
      let kept : IsServed next = elim change [
        | inl quiet ↦ Quiet-IsServed srv n s t is quiet served
        | inr new ↦ Registers-IsServed srv n s t is new served
      ] in
      elim (Flow-cases t.flow) [
        | inl on ↦ rw (on, after_turn) kept
        | inr off ↦ rw (off, after_turn) (close-IsServed next n t.session (ground arith) kept)
      ]

  serve-IsServed :
      (srv : Server) (i : Input) → IsServed srv → IsServed (serve encode interval srv i)
  unfolding serve
  serve-IsServed srv (opens n) served = elim (Option-cases (srv.live n)) [
    | inl free ↦ rw (free, serve) (λ h epoch tx found. ground (arith, served h epoch tx))
    | inr (s, is) ↦ rw (is, serve) served
  ]
  serve-IsServed srv (ends n) served = elim (Option-cases (srv.live n)) [
    | inl free ↦ rw (free, serve) served
    | inr (s, is) ↦ rw (is, serve) (close-IsServed srv n s is served)
  ]
  serve-IsServed srv (receives n m) served = elim (Option-cases (srv.live n)) [
    | inl free ↦ rw (free, serve) served
    | inr (s, is) ↦
        rw (is, serve)
          (turn-IsServed srv n s _ is
            (frame_turn interval (channel n) m.delivers m.now srv.dispatcher s m.payload) served)
  ]
  serve-IsServed srv (starts_experiment definition now) served = λ h epoch tx found.
      served h epoch tx (rw (start-sessions srv.dispatcher definition now) at found)
  serve-IsServed srv (halts_experiment id why now) served =
      λ h epoch tx found. served h epoch tx (rw (halt-sessions srv.dispatcher id why now) at found)
  serve-IsServed srv (meets_deadline id now) served =
      λ h epoch tx found. served h epoch tx (rw (deadline-sessions srv.dispatcher id now) at found)

  turn-IsSoundStore :
      (srv : Server) (n : ℕ) (t : Turn)
      → IsSoundStore t.dispatcher.store
      → IsSoundStore (after_turn encode interval srv n t).dispatcher.store
  unfolding after_turn close_stream
  turn-IsSoundStore srv n t all = elim (Flow-cases t.flow) [
    | inl on ↦ rw (on, after_turn) all
    | inr off ↦ rw (off, after_turn, store_closed t.dispatcher t.session) all
  ]

  serve-IsSoundStore :
      (srv : Server) (i : Input)
      → IsSoundStore srv.dispatcher.store
      → IsSoundStore (serve encode interval srv i).dispatcher.store
  unfolding serve close_stream handle
  serve-IsSoundStore srv (opens n) all = elim (Option-cases (srv.live n)) [
    | inl free ↦ rw (free, serve) all
    | inr (s, is) ↦ rw (is, serve) all
  ]
  serve-IsSoundStore srv (ends n) all = elim (Option-cases (srv.live n)) [
    | inl free ↦ rw (free, serve) all
    | inr (s, is) ↦ rw (is, serve, store_closed srv.dispatcher s) all
  ]
  serve-IsSoundStore srv (receives n m) all = elim (Option-cases (srv.live n)) [
    | inl free ↦ rw (free, serve) all
    | inr (s, is) ↦
        rw (is, serve)
          (turn-IsSoundStore srv n _ (
            rw (frame_runs encode interval (channel n) m.delivers m.now srv.dispatcher s m.payload)
              (run-IsSoundStore encode srv.dispatcher (frame_calls (channel n) m.now s m.payload)
                all)))
  ]
  serve-IsSoundStore srv (starts_experiment definition now) all =
      handle-IsSoundStore encode srv.dispatcher (starts definition now) all
  serve-IsSoundStore srv (halts_experiment id why now) all =
      handle-IsSoundStore encode srv.dispatcher (halts id why now) all
  serve-IsSoundStore srv (meets_deadline id now) all =
      handle-IsSoundStore encode srv.dispatcher (expires id now) all

  -- However the streams open, send frames and end, and the operator's calls and the deadlines come
  -- in between: each entry of the session map stays that of an open stream, which registered as that
  -- host and holds the entry's epoch; and the records of the store stay sound.
  pub serve_all-IsServed :
      (srv : Server) (is : List Input)
      → IsServed srv
      → IsSoundStore srv.dispatcher.store
      → IsServed (serve_all encode interval srv is)
        × IsSoundStore (serve_all encode interval srv is).dispatcher.store
  unfolding serve_all
  serve_all-IsServed srv [] served all = (served, all)
  serve_all-IsServed srv (i ∷ is) served all =
      serve_all-IsServed (serve encode interval srv i) is (serve-IsServed srv i served)
        (serve-IsSoundStore srv i all)
