-- ===== src/Master/Session/Leaves.antt =====
-- crates/master/src/session.rs: what `run` leaves behind.
use faultforge.Prelude.{ℕ, ◌≡◌, ◌≢◌, String, some, List, [], ◌∷◌, inl, inr, arith}
use faultforge.Prelude.Dict.{get}
use faultforge.Master.Sessions.{SessionTx, SessionMap}
use faultforge.Master.Session.{Session, handle_frame, close, Message}
use faultforge.Master.Session.Turns.{frame_turn}
use faultforge.Master.Session.Streams.{Server, put, channel, close_stream, IsServed}
use faultforge.Master.Session.{run_stream}
use faultforge.Master.Session.Served.{
  close-IsServed, Quiet-IsServed, Registers-IsServed, Flow-cases,
}

-- No entry of the session map is on this stream's channel.
abbrev pub IsGone : SessionMap → ℕ → Type 0
IsGone m n =
    (h : String) (epoch : ℕ) (tx : SessionTx) → get h m.inner ≡ some (epoch, tx) → tx.stream ≢ n

close_leaves :
    (srv : Server) (n : ℕ) (s : Session)
    → srv.live n ≡ some s
    → IsServed srv
    → IsGone (close srv.dispatcher s).sessions n
unfolding close_stream
close_leaves srv n s is served h epoch tx found same =
    ground (arith, close-IsServed srv n s is served h epoch tx found)

-- Whatever messages a stream yields before it ends, and whether it ends by itself or is ended by a
-- rejected frame or a lost reply: when its task returns, no entry of the session map is on its
-- channel, so that no frame is sent to it any more.
pub run_stream_leaves :
    (interval : ℕ) (srv : Server) (n : ℕ) (s : Session) (ms : List Message)
    → srv.live n ≡ some s
    → IsServed srv
    → IsGone (run_stream interval (channel n) srv.dispatcher s ms).sessions n
unfolding run_stream
run_stream_leaves interval srv n s [] is served = close_leaves srv n s is served
run_stream_leaves interval srv n s (m ∷ ms) is served =
    let t = handle_frame interval (channel n) m.delivers m.now srv.dispatcher s m.payload in
    let next : Server = record {
      dispatcher = t.dispatcher;
      live = put srv.live n (some t.session);
    } in
    let kept : IsServed next =
      elim (frame_turn interval (channel n) m.delivers m.now srv.dispatcher s m.payload) [
        | inl quiet ↦ Quiet-IsServed srv n s t is quiet served
        | inr new ↦ Registers-IsServed srv n s t is new served
      ] in
    elim (Flow-cases t.flow) [
      | inl on ↦
          rw (on, run_stream) (run_stream_leaves interval next n t.session ms (ground arith) kept)
      | inr off ↦ rw (off, run_stream) (close_leaves next n t.session (ground arith) kept)
    ]
