-- ===== src/Cli/Rejected.antt =====
-- crates/cli/src/script.rs against crates/master/src/management.rs: the submission of an experiment that the master
-- rejects.
use Prim.Native.String.{◌++◌ as cat}
use faultforge.Prelude.{String, Bool, Option, some, List, [], ◌∷◌, map, ◌≡◌, refl}
use faultforge.Prelude.Int.{ℤ}
use faultforge.Fault.Params.{Params}
use faultforge.Master.Experiment.{ExperimentDefinition, ValidationFailure}
use faultforge.Master.Experiment.Validate.{validate}
use faultforge.Master.Dispatch.Frames.{Dispatcher}
use faultforge.Master.Dispatch.Start.{gather_host_facts, start_experiment, start_validated}
use faultforge.Master.Management as Management
use faultforge.Master.Management.{Body}
use faultforge.Master.Management.Routes.{route-run_experiment}
use faultforge.Master.Management.Views.{show_failure}
use faultforge.Cli.Link.{Link, Carries, connected, exchange-connected}
use faultforge.Cli.Api.{Http, ok, err, post, validation, value, run_experiment, validation_error}
use faultforge.Cli.Output.{OutputFormat}
use faultforge.Cli.Script.{
  Shell, Exit, experiment, run_file, run, run_command, run_experiment_file, read_file, submitted,
}

-- what the command leaves, from the failures
abbrev pub rejection : List ValidationFailure → Exit
rejection failures = record {
  code = 3;
  out = [];
  errors = "error: experiment rejected by VALIDATE:" ∷ map (cat "  - ") (map show_failure failures);
}

module _ {B : Type 0} (link : Link ExperimentDefinition B) (encode : Params → Option String)
    (path : Carries link ("experiments" ∷ [])) (d : Dispatcher) (now : ℤ) (x : ExperimentDefinition)
    (f : ValidationFailure) (failures : List ValidationFailure)
    (carried : link.extract x ≡ Management.definition x)
    (refused : validate x d.catalog (gather_host_facts d x) ≡ f ∷ failures)
    (reads : link.errors (link.text (link.body (Body.errors (map show_failure (f ∷ failures)))))
      ≡ value (map show_failure (f ∷ failures))) where
  run_experiment-rejected :
      run_experiment (connected link encode d now) x
      ≡ err (validation (map show_failure (f ∷ failures)))
  unfolding run_experiment Management.run_experiment start_experiment start_validated
      Management.start_response validation_error
  run_experiment-rejected =
      rw
        (
          exchange-connected link encode d now post ("experiments" ∷ []) (some x) path,
          carried,
          route-run_experiment encode d (Management.definition x) now,
          refused,
        )
        (rw (reads) refl)

  -- Where the file parses, the link carries the path and the experiment to the master and its
  -- errors back, and the master rejects it: `experiment run` exits with 3, waiting or not, nothing goes to
  -- the standard output, and each failed check is a line of the standard error, in order. The
  -- master stays as it was, and no agent is sent a frame.
  pub run_rejected :
      (shell : Shell ExperimentDefinition) (format : OutputFormat)
      (polls : List (Http ExperimentDefinition B)) (file : String) (wait : Bool)
      → shell.read file ≡ value x
      → (run shell format (ok (connected link encode d now)) polls (experiment (run_file file wait))
          ≡ some (rejection (f ∷ failures)))
        × ((start_experiment encode d x now).0 ≡ d)
        × ((start_experiment encode d x now).2 ≡ [])
  unfolding run run_command run_experiment_file read_file submitted start_experiment start_validated
  run_rejected shell format polls file wait parsed =
      (rw (parsed, run_experiment-rejected) refl, rw (refused) refl, rw (refused) refl)
