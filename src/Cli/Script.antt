-- ===== src/Cli/Script.antt =====
-- crates/cli/src/script.rs: one command of the command line, to its exit code. A `Shell` stands for
-- what is not the program: the file system and the YAML parser, serde_json's printers, and what the write
-- to the standard output comes to. What goes to the standard error is a list of lines.
use Prim.Native.String.{◌++◌ as cat}
use text.Mathlib.Text.{◌==◌ as str_eq}
use faultforge.Prelude.{
  ℕ, String, Bool, true, false, Option, none, some, List, [], ◌∷◌, map, if◌then◌else◌,
}
use faultforge.Prelude.Int.{ℤ}
use faultforge.Prelude.Decimal.{show}
use faultforge.Cli.Model.{Experiment, is_terminal}
use faultforge.Cli.Api.{
  ApiError, connect, timeout, not_found, transport, conflict, decode, invalid_url, validation,
  status, Result, ok, err, Decoded, value, bad, Http, list_agents, get_agent, run_experiment,
  list_experiments, get_experiment, halt_experiment, clear_taint,
}
use faultforge.Cli.Output.{
  OutputFormat, json, table, Pretty, render_agents, render_agent, render_experiments,
  render_experiment,
}

abbrev pub exit_ok : ℕ
exit_ok = 0

abbrev pub exit_error : ℕ
exit_error = 1

abbrev pub exit_not_found : ℕ
exit_not_found = 2

abbrev pub exit_validation : ℕ
exit_validation = 3

abbrev pub exit_experiment_aborted : ℕ
exit_experiment_aborted = 4

abbrev pub exit_experiment_error : ℕ
exit_experiment_error = 5

pub data AgentsCommand : Type 0 where
  list : AgentsCommand
  show_agent clear : (hostname : String) → AgentsCommand

pub data ExperimentCommand : Type 0 where
  run_file : (file : String) (wait : Bool) → ExperimentCommand
  list : ExperimentCommand
  show_one halt : (id : String) → ExperimentCommand

pub data Command : Type 0 where
  agents : AgentsCommand → Command
  experiment : ExperimentCommand → Command

pub data Write : Type 0 where
  written broken_pipe write_failed : Write

pub record Shell (D : Type 0) : Type 0 where
  pub pretty : Pretty
  pub action_json : (action subject note : String) → String
  pub read : String → Decoded D
  pub write : Write
  -- a `SystemTime`, in nanoseconds since the epoch
  pub now : ℤ

-- the exit code, and the lines for the standard output, written or not, and the standard error
pub record Exit : Type 0 where
  pub code : ℕ
  pub out : List String
  pub errors : List String

abbrev join : List String → String
join [] = ""
join (e ∷ []) = e
join (e ∷ es) = cat e (cat "; " (join es))

-- `Display` of `ApiError`
unfoldable pub show_error : ApiError → String
show_error (connect url) = cat "could not connect to master at " url
show_error timeout = "request to master timed out"
show_error (transport e) = cat "transport error: " e
show_error not_found = "not found"
show_error (conflict why) = cat "conflict: " why
show_error (validation es) = cat "experiment rejected: " (join es)
show_error (status code body) = cat "master returned HTTP " (show code)
show_error (decode e) = cat "could not decode master response: " e
show_error (invalid_url e) = cat "invalid master URL: " e

unfoldable pub write_error : String → Exit
write_error msg = record { code = exit_error; out = []; errors = cat "error: " msg ∷ [] }

abbrev pub write_transport_error : ApiError → Exit
write_transport_error e = write_error (show_error e)

unfoldable pub outcome_exit_code : Option String → ℕ
outcome_exit_code none = exit_error
outcome_exit_code (some o) =
    if str_eq o "COMPLETED"
    then exit_ok
    else if str_eq o "ABORTED"
    then exit_experiment_aborted
    else if str_eq o "ERROR"
    then exit_experiment_error
    else exit_error

-- `write_line`, where `none` is `Ok`
unfoldable pub write_line : Write → Option ℕ
write_line written = none
write_line broken_pipe = some exit_ok
write_line write_failed = some exit_error

abbrev or_code : Option ℕ → ℕ → ℕ
or_code none code = code
or_code (some code) _ = code

-- a line on the standard output, and the exit code where it is written
unfoldable pub printed : Write → String → ℕ → Exit
printed w line code = record { code = or_code (write_line w) code; out = line ∷ []; errors = [] }

abbrev pub emit : Write → String → Exit
emit w line = printed w line exit_ok

abbrev missing : String → String → Exit
missing what name = record {
  code = exit_not_found;
  out = [];
  errors = cat "error: " (cat what (cat " not found: " name)) ∷ [];
}

module _ {D : Type 0} (shell : Shell D) (format : OutputFormat) where
  unfoldable pub print_action : (action subject note : String) → OutputFormat → Exit
  print_action action subject note json = emit shell.write (shell.action_json action subject note)
  print_action action subject note table =
      emit shell.write (cat action (cat ": " (cat subject (cat " (" (cat note ")")))))

  -- a command that shows something
  unfoldable pub shown {ℓ} : {A : Type ℓ} → (A → String) → Result A → Exit
  shown render (ok a) = emit shell.write (render a)
  shown render (err e) = write_transport_error e

  -- a command that shows one thing, which may be missing
  unfoldable pub shown_one {ℓ} :
      {A : Type ℓ} → (A → String) → (what name : String) → Result A → Exit
  shown_one render what name (ok a) = emit shell.write (render a)
  shown_one render what name (err not_found) = missing what name
  shown_one render what name (err e) = write_transport_error e

  -- a command that changes something
  unfoldable pub acted_on : (action subject note what : String) → Result (Unit {0}) → Exit
  unfolding print_action
  acted_on action subject note what (ok done) = print_action action subject note format
  acted_on action subject note what (err not_found) = missing what subject
  acted_on action subject note what (err (conflict why)) = write_error why
  acted_on action subject note what (err e) = write_transport_error e

  unfoldable pub run_agents : {B : Type 0} → Http D B → AgentsCommand → Exit
  unfolding shown shown_one acted_on
  run_agents http list =
      shown (λ found. render_agents shell.pretty found format shell.now) (list_agents http)
  run_agents http (show_agent hostname) =
      shown_one (λ found. render_agent shell.pretty found format shell.now) "agent" hostname
        (get_agent http hostname)
  run_agents http (clear hostname) =
      acted_on "clear-taint requested" hostname
        "the agent confirms via its next report; verify with `agents show`" "agent"
        (clear_taint http hostname)

  -- `wait_until_terminal`, where `polls` is the server at each poll; `none` if they are not enough
  unfoldable pub wait_until_terminal :
      {B : Type 0} → List (Http D B) → String → Option (Result Experiment)
  wait_until_terminal [] id = none
  wait_until_terminal (http ∷ polls) id =
      let rest = wait_until_terminal polls id in
      elim (get_experiment http id) [
        | err e ↦ some (err e)
        | ok e ↦ if is_terminal e then some (ok e) else rest
      ]

  render : Experiment → String
  render e = render_experiment shell.pretty e format shell.now

  unfoldable pub waited : Option (Result Experiment) → Option Exit
  unfolding render
  waited none = none
  waited (some (err e)) = some (write_transport_error e)
  waited (some (ok e)) = some (printed shell.write (render e) (outcome_exit_code e.outcome))

  unfoldable pub submitted : {B : Type 0} → List (Http D B) → Bool → Result Experiment → Option Exit
  unfolding waited
  submitted polls wait (err (validation errors)) = some (record {
    code = exit_validation;
    out = [];
    errors = "error: experiment rejected by VALIDATE:" ∷ map (cat "  - ") errors;
  })
  submitted polls wait (err e) = some (write_transport_error e)
  submitted polls true (ok e) = waited (wait_until_terminal polls e.id)
  submitted polls false (ok e) = some (emit shell.write (render e))

  unfoldable pub read_file :
      {B : Type 0} → Http D B → List (Http D B) → Bool → Decoded D → Option Exit
  unfolding submitted
  read_file http polls wait (bad msg) = some (write_error msg)
  read_file http polls wait (value definition) =
      submitted polls wait (run_experiment http definition)

  unfoldable pub run_experiment_file :
      {B : Type 0} → Http D B → List (Http D B) → String → Bool → Option Exit
  unfolding read_file
  run_experiment_file http polls file wait = read_file http polls wait (shell.read file)

  unfoldable pub run_command :
      {B : Type 0} → Http D B → List (Http D B) → ExperimentCommand → Option Exit
  unfolding shown shown_one acted_on render
  run_command http polls (run_file file wait) = run_experiment_file http polls file wait
  run_command http polls list = some (
      shown (λ found. render_experiments shell.pretty found format shell.now)
        (list_experiments http))
  run_command http polls (show_one id) =
      some (shown_one render "experiment" id (get_experiment http id))
  run_command http polls (halt id) =
      some (acted_on "halt requested" id "kill-switch fired" "experiment" (halt_experiment http id))

  -- `run`, on a client or the error of making it
  unfoldable pub run : {B : Type 0} → Result (Http D B) → List (Http D B) → Command → Option Exit
  run (err e) polls command = some (write_transport_error e)
  run (ok http) polls (agents sub) = some (run_agents http sub)
  run (ok http) polls (experiment sub) = run_command http polls sub
