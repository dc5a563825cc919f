-- ===== src/Agent/Supervisor/Ends.antt =====
-- The loop of `run_instance` ends, whatever the world answers, and in a terminal state.
use faultforge.Prelude.{
  ℕ, zero, suc, ◌<◌, ◌≤◌, ◌≡◌, inl, inr, refl, true, List, length, some, arith,
}
use faultforge.Agent.Machine.{is_terminal, Event}
use faultforge.Agent.Machine.Progress.{work}
use faultforge.Agent.Host.{JournalEntry, Journal, TaintFile}
use faultforge.Agent.Supervisor.{World, Shell, next_event, advance, run_loop, start}
use faultforge.Agent.Supervisor.Fed.{IsReady}
use faultforge.Agent.Supervisor.Rounds.{IsRound, round, start-IsReady}

module _ (entry : JournalEntry) (world : World) where
  -- The loop breaks from here, in a terminal state.
  pub HasEnd : Shell → Type 0
  HasEnd sh =
      (fuel : ℕ) × (final : Shell) × (run_loop entry world fuel sh ≡ some final)
      × (is_terminal final.state ≡ true)

  HasEnd-round :
      (e : Event) (q : List Event) (sh : Shell)
      → next_event entry world sh.state sh.queue ≡ some (e, q)
      → HasEnd (advance entry world e q sh)
      → HasEnd sh
  unfolding run_loop HasEnd
  HasEnd-round e q sh next (fuel, final, runs, over) =
      (suc fuel, final, rw (next, run_loop) runs, over)

  -- Where all shells with less work end, one with this much ends: its queue runs out.
  HasEnd-by_queue :
      (w : ℕ)
      → ((sh : Shell) → work sh.state < w → IsReady sh → HasEnd sh)
      → (n : ℕ) (sh : Shell) → work sh.state ≤ w
      → length sh.queue < n
      → IsReady sh
      → HasEnd sh
  unfolding run_loop IsRound HasEnd
  HasEnd-by_queue w less zero sh hw hn v = absurd (omega arith)
  HasEnd-by_queue w less (suc n) sh hw hn v = elim (round entry world sh v) [
    | inl (over, stops) ↦ (1, sh, rw (stops, run_loop) refl, over)
    | inr (e, q, next, ready, inl nearer, taken) ↦
        HasEnd-round e q sh next (less (advance entry world e q sh) (omega arith) ready)
    | inr (e, q, next, ready, inr (same, shorter), taken) ↦
        HasEnd-round e q sh next
          (HasEnd-by_queue w less n (advance entry world e q sh) (omega arith) (omega arith) ready)
  ]

  HasEnd-by_work : (w : ℕ) (sh : Shell) → work sh.state < w → IsReady sh → HasEnd sh
  HasEnd-by_work zero sh h v = absurd (omega arith)
  HasEnd-by_work (suc w) sh h v =
      HasEnd-by_queue w (λ sh' h' v'. HasEnd-by_work w sh' h' v') (suc (length sh.queue)) sh
        (omega arith) (omega arith) v

  -- Whatever the world answers to an instance (the setup, every invocation with the stops that come
  -- in meanwhile, every file operation), its loop ends, and the instance is then terminal.
  pub run_instance_ends :
      (journal : Journal) (taint : TaintFile)
      → (fuel : ℕ) × (final : Shell) × (run_loop entry world fuel (start entry world journal taint)
          ≡ some final)
        × (is_terminal final.state ≡ true)
  unfolding HasEnd
  run_instance_ends journal taint =
      let sh = start entry world journal taint in
      HasEnd-by_work (suc (work sh.state)) sh (omega arith)
        (start-IsReady entry world journal taint)
