-- ===== src/Cli/Actions.antt =====
-- crates/cli/src/script.rs against crates/master/src/management.rs: the commands that change something.
use faultforge.Prelude.{
  ℕ, Bool-cases, inl, inr, ◌==◌, ap, String, false, Option, none, some, List, [], ◌∷◌, ◌≡◌,
  if◌then◌else◌,
}
use faultforge.Prelude.Int.{ℤ}
use faultforge.Prelude.Dict.{get}
use faultforge.Prelude.Text.{is_empty}
use faultforge.Proto.Hostname.{parse}
use faultforge.Fault.Params.{Params}
use faultforge.Master.Experiment.{ExperimentDefinition}
use faultforge.Master.Dispatch.Frames.{Dispatcher}
use faultforge.Master.Management as Management
use faultforge.Master.Management.Routes.{
  route-halt, route-clear_taint, halt_answer, halt_experiment-answer, clear_answer,
  clear_taint-answer,
}
use faultforge.Cli.Link.{Link, Carries, connected, exchange-connected, answered}
use faultforge.Cli.Api.{Http, is_success, ok, post, halt_experiment, clear_taint, acted}
use faultforge.Cli.Output.{OutputFormat, json, table}
use faultforge.Cli.Script.{
  Exit, Shell, written, experiment, halt as halt_command, run, run_agents, run_command, agents,
  clear, acted_on, print_action, printed, write_line, write_error,
}

abbrev pub code_of : Option Exit → Option ℕ
code_of none = none
code_of (some e) = some e.code

-- the exit code that a status comes to
abbrev pub exit_of : ℕ → ℕ
exit_of code =
    if code == 404 then 2 else (if code == 409 then 1 else (if is_success code then 0 else 1))

print_action-code :
    {D : Type 0} (shell : Shell D) (format : OutputFormat) (action subject note : String)
    → shell.write ≡ written
    → (print_action shell format action subject note format).code ≡ 0
unfolding print_action printed write_line
print_action-code shell json action subject note w = rw (w)
print_action-code shell table action subject note w = rw (w)

acted_on-code :
    {D B : Type 0} (shell : Shell D) (format : OutputFormat) (http : Http D B)
    (action subject note what why : String) (reply : ℕ × B)
    → shell.write ≡ written
    → (acted_on shell format action subject note what (acted http why reply)).code ≡ exit_of reply.0
unfolding acted_on acted write_error
acted_on-code shell format http action subject note what why (code, body) w =
    elim (Bool-cases (code == 404)) [
      | inl gone ↦ rw (gone)
      | inr here ↦ elim (Bool-cases (code == 409)) [
        | inl late ↦ rw (here, late)
        | inr early ↦ elim (Bool-cases (is_success code)) [
          | inl good ↦ rw (here, early, good) (print_action-code shell format action subject note w)
          | inr other ↦ rw (here, early, other)
        ]
      ]
    ]

module _ {B : Type 0} (link : Link ExperimentDefinition B) (encode : Params → Option String)
    (d : Dispatcher) (now : ℤ) where
  halt-connected :
      (id : String)
      → is_empty id ≡ false
      → Carries link ("experiments" ∷ id ∷ "halt" ∷ [])
      → halt_experiment (connected link encode d now) id
        ≡ acted
            (connected link encode d now)
            "experiment is already terminal"
            (answered link (Management.halt_experiment d id now).1)
  unfolding halt_experiment
  halt-connected id filled carried = rw (
    exchange-connected link encode d now post ("experiments" ∷ id ∷ "halt" ∷ []) none carried,
    route-halt encode d (Management.refused 415) now id filled,
  )

  clear-connected :
      (host : String)
      → is_empty host ≡ false
      → Carries link ("agents" ∷ host ∷ "clear-taint" ∷ [])
      → clear_taint (connected link encode d now) host
        ≡ acted
            (connected link encode d now)
            "host has no live session; the agent must be connected to clear its taint"
            (answered link (Management.clear_taint d host).1)
  unfolding clear_taint
  clear-connected host filled carried = rw (
    exchange-connected link encode d now post ("agents" ∷ host ∷ "clear-taint" ∷ []) none carried,
    route-clear_taint encode d (Management.refused 415) now host filled,
  )

  module _ (shell : Shell ExperimentDefinition) (format : OutputFormat)
      (polls : List (Http ExperimentDefinition B)) where
    -- Where the id is not empty, the request's path comes to the router as the client wrote it, and
    -- the standard output takes what is written: `experiment halt` exits with 2 where the master has
    -- no such experiment, 1 where it is concluded, and 0 otherwise.
    pub halt-exits :
        (id : String)
        → is_empty id ≡ false
        → Carries link ("experiments" ∷ id ∷ "halt" ∷ [])
        → shell.write ≡ written
        → code_of (
            run shell format
              (ok (connected link encode d now))
              polls
              (experiment (halt_command id)))
          ≡ some (exit_of (halt_answer (get id d.store)))
    unfolding run run_command
    halt-exits id filled carried w = ap some (
        rw (
          halt-connected id filled carried,
          acted_on-code shell format (connected link encode d now) "halt requested" id
              "kill-switch fired" "experiment" "experiment is already terminal"
              (answered link (Management.halt_experiment d id now).1) w,
          halt_experiment-answer d id now,
        ))

    -- Where the name is not empty, the request's path comes to the router as the client wrote it,
    -- and the standard output takes what is written: `agents clear-taint` exits with 2 where the name
    -- is no hostname or no host of the registry, 1 where no open session of the host takes the frame,
    -- and 0 otherwise.
    pub clear_taint-exits :
        (host : String)
        → is_empty host ≡ false
        → Carries link ("agents" ∷ host ∷ "clear-taint" ∷ [])
        → shell.write ≡ written
        → code_of (run shell format (ok (connected link encode d now)) polls (agents (clear host)))
          ≡ some (exit_of (clear_answer d (parse host)))
    unfolding run run_agents
    clear_taint-exits host filled carried w = ap some (
        rw (
          clear-connected host filled carried,
          acted_on-code shell format (connected link encode d now) "clear-taint requested" host
              "the agent confirms via its next report; verify with `agents show`" "agent"
              "host has no live session; the agent must be connected to clear its taint"
              (answered link (Management.clear_taint d host).1) w,
          clear_taint-answer d host,
        ))
