-- ===== src/Cli/Seen.antt =====
-- crates/cli/src/api/model.rs and script.rs against crates/master/src/management.rs: a record of the master as the
-- client reads it, and the exit code of its outcome.
use faultforge.Prelude.{ℕ, Option, none, some, is_some, ◌≡◌, refl}
use faultforge.Master.Experiment.{
  Experiment, ExperimentPhase, running, halting, concluded, completed, aborted, error, is_concluded,
  is_concluded_phase,
}
use faultforge.Master.Management.Views.{experiment_view, phase_labels}
use faultforge.Cli.Model as Client
use faultforge.Cli.Link.{as_read}
use faultforge.Cli.Api.{Result, ok}
use faultforge.Cli.Script.{outcome_exit_code}

-- what the client reads of a record of the master
abbrev pub seen : Experiment → Client.Experiment
seen e = as_read (experiment_view e)

abbrev pub seen_result : Option Experiment → Option (Result Client.Experiment)
seen_result none = none
seen_result (some e) = some (ok (seen e))

labelled : (p : ExperimentPhase) → is_some (phase_labels p).1 ≡ is_concluded_phase p
labelled running = refl
labelled halting = refl
labelled (concluded o) = refl

pub seen-is_terminal : (e : Experiment) → Client.is_terminal (seen e) ≡ is_concluded e
unfolding experiment_view
seen-is_terminal e = labelled e.phase

-- the exit code that a phase comes to
abbrev pub phase_code : ExperimentPhase → ℕ
phase_code (concluded completed) = 0
phase_code (concluded aborted) = 4
phase_code (concluded error) = 5
phase_code _ = 1

pub outcome_exit_code-seen :
    (e : Experiment) → outcome_exit_code (seen e).outcome ≡ phase_code e.phase
unfolding outcome_exit_code experiment_view
outcome_exit_code-seen e = labelled_code e.phase
  where
    labelled_code : (p : ExperimentPhase) → outcome_exit_code (phase_labels p).1 ≡ phase_code p
    labelled_code running = refl
    labelled_code halting = refl
    labelled_code (concluded completed) = refl
    labelled_code (concluded aborted) = refl
    labelled_code (concluded error) = refl
