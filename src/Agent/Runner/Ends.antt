-- ===== src/Agent/Runner/Ends.antt =====
-- crates/agent/src/runner.rs: an invocation that comes back from its write comes to an end, and leaves no
-- process behind.
use Prim.Native.String.{◌++◌}
use faultforge.Prelude.{
  ℕ, zero, suc, ◌+◌, ◌*◌, ◌≤◌, ◌≡◌, ◌⊎◌, inl, inr, refl, ap, ◌∙◌, if◌then◌else◌, leb, String, Bool,
  true, false, Bool-cases, none, some, Option-cases, arith,
}
use faultforge.Prelude.Int.{ℤ}
use faultforge.Fault.Protocol.{classify_exit}
use faultforge.Agent.Supervisor.{InvocationOutcome, exited, timed_out, signalled, failed}
use faultforge.Agent.Runner.{
  Child, Lines, Ran, Poll, running, ended, poll_error, wait_with_timeout, status_outcome,
  spawn_entrypoint, spawn_retries, not_run, captured, split_stdout, invoke,
}

-- How the wait ends at a poll: the process is gone, or it is killed, after the timeout or on an error.
abbrev pub EndsAt : Child → ℕ → ℕ → InvocationOutcome × Bool → Type 0
EndsAt child timeout n (exited d, false) =
    (code : ℤ) × ((child.polls n ≡ ended (some code)) × (d ≡ classify_exit code))
EndsAt child timeout n (signalled, false) = child.polls n ≡ ended none
EndsAt child timeout n (timed_out, true) = (child.polls n ≡ running) × (timeout ≤ child.elapsed n)
EndsAt child timeout n (failed why, true) =
    (e : String) × ((child.polls n ≡ poll_error e) × (why ≡ "wait failed: " ++ e))
EndsAt child timeout n _ = ⊥

Poll-cases :
    (p : Poll)
    → (p ≡ running)
      ⊎ (((code : ℤ) × (p ≡ ended (some code)))
          ⊎ ((p ≡ ended none) ⊎ ((e : String) × (p ≡ poll_error e))))
Poll-cases running = inl refl
Poll-cases (ended (some code)) = inr (inl (code, refl))
Poll-cases (ended none) = inr (inr (inl refl))
Poll-cases (poll_error e) = inr (inr (inr (e, refl)))

abbrev Waits : Child → (timeout fuel n : ℕ) → Type 0
Waits child timeout fuel n =
    (result : InvocationOutcome × Bool) × ((wait_with_timeout child timeout fuel n ≡ some result)
      × ((m : ℕ) × (EndsAt child timeout m result)))

wait_step :
    (child : Child) (timeout fuel n : ℕ)
    → (child.polls n ≡ running
        → leb timeout (child.elapsed n) ≡ false
        → Waits child timeout fuel (suc n))
    → Waits child timeout (suc fuel) n
unfolding wait_with_timeout status_outcome
wait_step child timeout fuel n goes_on = elim (Poll-cases (child.polls n)) [
  | inr (inl (code, gone)) ↦ (
    (exited (classify_exit code), false),
    (rw (gone, wait_with_timeout) refl, (n, (code, (gone, refl)))),
  )
  | inr (inr (inl gone)) ↦ ((signalled, false), (rw (gone, wait_with_timeout) refl, (n, gone)))
  | inr (inr (inr (e, bad))) ↦ (
    (failed ("wait failed: " ++ e), true),
    (rw (bad, wait_with_timeout) refl, (n, (e, (bad, refl)))),
  )
  | inl runs ↦ elim (Bool-cases (leb timeout (child.elapsed n))) [
    | inl late ↦
        ((timed_out, true), (rw (runs, late, wait_with_timeout) refl, (n, (runs, ground arith))))
    | inr early ↦
        let (result, (same, at)) = goes_on runs early in
        (result, (rw (runs, early, wait_with_timeout) same, at))
  ]
]

wait_ends :
    (child : Child) (timeout fuel n : ℕ)
    → ((m : ℕ) → m * 25 ≤ child.elapsed m)
    → timeout ≤ (n + fuel) * 25
    → Waits child timeout (suc fuel) n
wait_ends child timeout zero n ticks enough =
    let tick = ticks n in wait_step child timeout zero n (λ runs early. absurd (ground arith))
wait_ends child timeout (suc fuel) n ticks enough =
    wait_step child timeout (suc fuel) n
      (λ runs early. wait_ends child timeout fuel (suc n) ticks (omega arith))

-- The process did not start, and why.
abbrev pub IsUnstarted : Child → Ran → Type 0
IsUnstarted child ran =
    (e : String) × (((child.encode_error ≡ some e)
        × (ran ≡ not_run ("could not encode plugin input: " ++ e)))
      ⊎ ((spawn_entrypoint child spawn_retries 0 ≡ some e)
          × (ran ≡ not_run ("spawn failed: " ++ e))))

abbrev ran_of : Lines → Child → InvocationOutcome × Bool → Ran
ran_of text child result = record {
  lines = split_stdout text child.stdout;
  stderr = child.stderr;
  outcome = result.0;
  killed = result.1;
}

invoke-waited :
    (text : Lines) (child : Child) (timeout fuel : ℕ) (result : InvocationOutcome × Bool)
    → child.encode_error ≡ none
    → spawn_entrypoint child spawn_retries 0 ≡ none
    → child.takes_input ≡ true
    → wait_with_timeout child timeout fuel 0 ≡ some result
    → invoke text child timeout fuel ≡ some (ran_of text child result)
unfolding invoke captured
invoke-waited text child timeout fuel result encoded runs takes same =
    rw (encoded, invoke)
      (rw runs (
        ap (λ b. if b then captured text child (wait_with_timeout child timeout fuel 0) else none)
          takes
        ∙ ap (captured text child) same))

-- Where the write of the input comes back and the polls are 25 ms apart at least, an invocation comes
-- to an end after as many polls as fit in the timeout and one: the process does not start, and the outcome says why; or its
-- exit is seen and the outcome is that of its code, or of a signal where it has none; or it still
-- runs after the timeout, or a poll fails, and it is killed.
pub invoke_ends :
    (text : Lines) (child : Child) (timeout fuel : ℕ)
    → child.takes_input ≡ true
    → ((m : ℕ) → m * 25 ≤ child.elapsed m)
    → timeout ≤ fuel * 25
    → (ran : Ran) × ((invoke text child timeout (suc fuel) ≡ some ran)
        × (IsUnstarted child ran ⊎ ((m : ℕ) × EndsAt child timeout m (ran.outcome, ran.killed))))
unfolding invoke captured
invoke_ends text child timeout fuel takes ticks enough = elim (Option-cases child.encode_error) [
  | inr (e, bad) ↦ (
    not_run ("could not encode plugin input: " ++ e),
    (rw (bad, invoke) refl, inl (e, inl (bad, refl))),
  )
  | inl encoded ↦ elim (Option-cases (spawn_entrypoint child spawn_retries 0)) [
    | inr (e, bad) ↦ (
      not_run ("spawn failed: " ++ e),
      (rw (encoded, bad, invoke) refl, inl (e, inr (bad, refl))),
    )
    | inl runs ↦
        let (result, (same, at)) = wait_ends child timeout fuel 0 ticks (omega arith) in
        (
          ran_of text child result,
          (invoke-waited text child timeout (suc fuel) result encoded runs takes same, inr at),
        )
  ]
]
