-- ===== src/Scenarios/Process.antt =====
-- crates/agent/src/runner.rs: a plugin that hangs.
use faultforge.Prelude.{ℕ, ◌*◌, ◌≡◌, ◌⊎◌, refl, true, false, none, some, [], ◌∷◌, arith}
use faultforge.Agent.Runner.{Child, Lines, Ran, started, running, invoke}
use faultforge.Agent.Runner.Ends.{EndsAt, IsUnstarted, invoke_ends}

abbrev hangs : Child
hangs = record {
  encode_error = none;
  spawns = λ n. started;
  takes_input = true;
  polls = λ n. running;
  elapsed = λ n. n * 26;
  stdout = "starting";
  stderr = "";
}

abbrev lines : Lines
lines = record { lines_of = λ s. s ∷ []; is_blank = λ s. false; parse_event = λ s. none }

invoke_ends_example :
    (ran : Ran) × ((invoke lines hangs 100 5 ≡ some ran)
      × (IsUnstarted hangs ran ⊎ ((m : ℕ) × EndsAt hangs 100 m (ran.outcome, ran.killed))))
invoke_ends_example = invoke_ends lines hangs 100 4 refl (λ m. omega arith) (omega arith)
