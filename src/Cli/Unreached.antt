-- ===== src/Cli/Unreached.antt =====
-- crates/cli/src/script.rs and api: the commands against a master that no request reaches.
use faultforge.Prelude.{
  String, Bool, true, false, Bool-cases, inl, inr, Option, none, some, List, [], ◌∷◌, ◌≡◌, refl,
}
use faultforge.Cli.Api.{
  ApiError, connect, timeout, not_found, transport, conflict, decode, invalid_url, validation,
  status, ok, err, Decoded, value, bad, Method, get, post, unsent, Http, classify_transport,
  replied, exchange, list_agents, get_agent, run_experiment, list_experiments, get_experiment,
  halt_experiment, clear_taint,
}
use faultforge.Cli.Output.{OutputFormat, render_agent, render_experiment}
use faultforge.Cli.Script.{
  AgentsCommand, ExperimentCommand, Command, agents, experiment, run_file, show_one, halt,
  show_agent, clear, Shell, Exit, write_error, shown, shown_one, acted_on, run_agents, submitted,
  read_file, run_experiment_file, run_command, run,
}

-- Every request fails before a response comes.
abbrev pub IsDown : {D B : Type 0} → Http D B → Type 0
IsDown {D} http =
    (method : Method) (segments : List String) (body : Option D)
    → (is_timeout : Bool) × (is_connect : Bool) × (error : String) × (http.send method segments body
        ≡ unsent is_timeout is_connect error)

-- the errors of a request that got no response
abbrev is_unsent : ApiError → Bool
is_unsent (connect url) = true
is_unsent timeout = true
is_unsent (transport e) = true
is_unsent (invalid_url e) = true
is_unsent _ = false

-- Nothing is shown, and the exit code is that of an error.
abbrev pub HasFailed : Exit → Type 0
HasFailed x = (x.code ≡ 1) × (x.out ≡ [])

module _ {D B : Type 0} (http : Http D B) (down : IsDown http) where
  classified : (t c : Bool) (e : String) → is_unsent (classify_transport http t c e) ≡ true
  unfolding classify_transport
  classified true c e = refl
  classified false true e = refl
  classified false false e = refl

  exchange-unsent :
      (method : Method) (segments : List String) (body : Option D)
      → (e : ApiError) × (exchange http method segments body ≡ err e) × (is_unsent e ≡ true)
  unfolding exchange replied
  exchange-unsent method segments body = elim (Bool-cases http.takes_segments) [
    | inl takes ↦
        let (t, c, e, sent) = down method segments body in
        (classify_transport http t c e, rw (takes, sent) refl, classified t c e)
    | inr takes_not ↦ (invalid_url http.base_url, rw (takes_not) refl, refl)
  ]

module _ {D : Type 0} (shell : Shell D) (format : OutputFormat) where
  acted_on-unsent :
      (action subject note what : String) (e : ApiError)
      → is_unsent e ≡ true
      → HasFailed (acted_on shell format action subject note what (err e))
  unfolding acted_on write_error
  acted_on-unsent action subject note what (connect url) u = (refl, refl)
  acted_on-unsent action subject note what timeout u = (refl, refl)
  acted_on-unsent action subject note what (transport e) u = (refl, refl)
  acted_on-unsent action subject note what (invalid_url e) u = (refl, refl)
  acted_on-unsent action subject note what not_found u = cc
  acted_on-unsent action subject note what (conflict e) u = cc
  acted_on-unsent action subject note what (decode e) u = cc
  acted_on-unsent action subject note what (validation e) u = cc
  acted_on-unsent action subject note what (status c b) u = cc

  shown_one-unsent {ℓ} :
      {A : Type ℓ} (render : A → String) (what name : String) (e : ApiError)
      → is_unsent e ≡ true
      → HasFailed (shown_one shell format render what name (err e))
  unfolding shown_one write_error
  shown_one-unsent render what name (connect url) u = (refl, refl)
  shown_one-unsent render what name timeout u = (refl, refl)
  shown_one-unsent render what name (transport e) u = (refl, refl)
  shown_one-unsent render what name (invalid_url e) u = (refl, refl)
  shown_one-unsent render what name not_found u = cc
  shown_one-unsent render what name (conflict e) u = cc
  shown_one-unsent render what name (decode e) u = cc
  shown_one-unsent render what name (validation e) u = cc
  shown_one-unsent render what name (status c b) u = cc

  submitted-unsent :
      {B : Type 0} (polls : List (Http D B)) (wait : Bool) (e : ApiError)
      → is_unsent e ≡ true
      → (x : Exit) × (submitted shell format polls wait (err e) ≡ some x) × HasFailed x
  unfolding submitted write_error
  submitted-unsent polls wait (connect url) u = (_, refl, (refl, refl))
  submitted-unsent polls wait timeout u = (_, refl, (refl, refl))
  submitted-unsent polls wait (transport e) u = (_, refl, (refl, refl))
  submitted-unsent polls wait (invalid_url e) u = (_, refl, (refl, refl))
  submitted-unsent polls wait not_found u = (_, refl, (refl, refl))
  submitted-unsent polls wait (conflict e) u = (_, refl, (refl, refl))
  submitted-unsent polls wait (decode e) u = (_, refl, (refl, refl))
  submitted-unsent polls wait (validation e) u = absurd cc
  submitted-unsent polls wait (status c b) u = (_, refl, (refl, refl))

  module _ {B : Type 0} (http : Http D B) (down : IsDown http) where
    agents-HasFailed : (sub : AgentsCommand) → HasFailed (run_agents shell format http sub)
    unfolding run_agents shown write_error list_agents get_agent clear_taint
    agents-HasFailed AgentsCommand.list =
        let (e, failed, u) = exchange-unsent http down get ("agents" ∷ []) none in
        rw (failed) (refl, refl)
    agents-HasFailed (show_agent hostname) =
        let (e, failed, u) = exchange-unsent http down get ("agents" ∷ hostname ∷ []) none in
        rw (failed) (
          shown_one-unsent (λ found. render_agent shell.pretty found format shell.now) "agent"
            hostname e u)
    agents-HasFailed (clear hostname) =
        let (e, failed, u) =
          exchange-unsent http down post ("agents" ∷ hostname ∷ "clear-taint" ∷ []) none in
        rw (failed) (
          acted_on-unsent "clear-taint requested" hostname
            "the agent confirms via its next report; verify with `agents show`" "agent" e u)

    read_file-HasFailed :
        (polls : List (Http D B)) (wait : Bool) (read : Decoded D)
        → (x : Exit) × (read_file shell format http polls wait read ≡ some x) × HasFailed x
    unfolding read_file write_error run_experiment
    read_file-HasFailed polls wait (bad msg) = (_, refl, (refl, refl))
    read_file-HasFailed polls wait (value definition) =
        let (e, failed, u) =
          exchange-unsent http down post ("experiments" ∷ []) (some definition) in
        let (x, ends, hf) = submitted-unsent polls wait e u in (x, rw (failed) ends, hf)

    command-HasFailed :
        (polls : List (Http D B)) (sub : ExperimentCommand)
        → (x : Exit) × (run_command shell format http polls sub ≡ some x) × HasFailed x
    unfolding run_command run_experiment_file shown write_error list_experiments get_experiment
        halt_experiment
    command-HasFailed polls (run_file file wait) = read_file-HasFailed polls wait (shell.read file)
    command-HasFailed polls ExperimentCommand.list =
        let (e, failed, u) = exchange-unsent http down get ("experiments" ∷ []) none in
        (_, refl, rw (failed) (refl, refl))
    command-HasFailed polls (show_one id) =
        let (e, failed, u) = exchange-unsent http down get ("experiments" ∷ id ∷ []) none in
        (
          _,
          refl,
          rw (failed) (
              shown_one-unsent (λ found. render_experiment shell.pretty found format shell.now)
                "experiment" id e u),
        )
    command-HasFailed polls (halt id) =
        let (e, failed, u) =
          exchange-unsent http down post ("experiments" ∷ id ∷ "halt" ∷ []) none in
        (
          _,
          refl,
          rw (failed) (acted_on-unsent "halt requested" id "kill-switch fired" "experiment" e u),
        )

    -- Against a master that no request reaches, every command ends with exit code 1 and shows nothing on the standard
    -- output, whatever the file system and the format; none of them waits.
    pub run_unreached :
        (polls : List (Http D B)) (command : Command)
        → (x : Exit) × (run shell format (ok http) polls command ≡ some x) × HasFailed x
    unfolding run
    run_unreached polls (agents sub) = (_, refl, agents-HasFailed sub)
    run_unreached polls (experiment sub) = command-HasFailed polls sub
