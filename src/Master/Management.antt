-- ===== src/Master/Management.antt =====
-- crates/master/src/management.rs: the handlers of the management API and the router. A handler returns
-- the dispatcher after it, its response, and the frames that it delivered. `Extracted` is what
-- axum makes of the body of a submission, and the segments of a path come to the router decoded.
pub mod Views
pub mod Listed
pub mod Routes
use text.Mathlib.Text.{◌==◌ as str_eq}
use faultforge.Prelude.{
  ℕ, String, Bool, ◌&&◌, Option, none, some, List, [], ◌∷◌, map, if◌then◌else◌,
}
use faultforge.Prelude.Int.{ℤ}
use faultforge.Prelude.Dict.{get}
use faultforge.Prelude.Sort.{sort_by, text_le}
use faultforge.Prelude.Text.{is_empty}
use faultforge.Fault.Params.{Params}
use faultforge.Proto.Hostname.{ParseResult, ok, err, parse}
use faultforge.Master.Registry.{AgentInfo, Registry}
use faultforge.Master.Experiment.{ExperimentDefinition, Experiment}
use faultforge.Master.Dispatch.Frames.{Dispatcher, Sent}
use faultforge.Master.Dispatch.Start.{StartResult, accepted, rejected, start_experiment}
use faultforge.Master.Dispatch.Handlers.{
  HaltOutcome, not_found, already_concluded, halt_accepted, halt, ClearTaintOutcome, unknown_host,
  not_connected, sent_, relay_clear_taint, get_experiment,
}
use faultforge.Master.Dispatch.Listing.{values, list_experiments}
use faultforge.Master.Management.Views.{
  AgentView, agent_view, ExperimentView, experiment_view, SummaryView, experiment_summary,
  show_failure,
}

pub data Method : Type 0 where
  get_ post : Method

pub data Extracted : Type 0 where
  definition : ExperimentDefinition → Extracted
  refused : (status : ℕ) → Extracted

pub data Body : Type 0 where
  empty : Body
  agents : List AgentView → Body
  agent : AgentView → Body
  experiment : ExperimentView → Body
  summaries : List SummaryView → Body
  errors : List String → Body

pub record Response : Type 0 where
  pub status : ℕ
  pub body : Body

abbrev pub bare : ℕ → Response
bare status = record { status = status; body = empty }

abbrev pub agent_le : AgentView → AgentView → Bool
agent_le a b = text_le a.hostname b.hostname

unfoldable pub list_agents : Dispatcher → Response
list_agents d = record {
  status = 200;
  body = agents (sort_by agent_le (map agent_view (values d.registry)));
}

agent_response : Option AgentInfo → Response
agent_response none = bare 404
agent_response (some info) = record { status = 200; body = agent (agent_view info) }

get_parsed : Dispatcher → ParseResult → Response
unfolding agent_response
get_parsed d (err e) = bare 404
get_parsed d (ok hostname) = agent_response (get hostname d.registry)

unfoldable pub get_agent : Dispatcher → String → Response
unfolding get_parsed
get_agent d hostname = get_parsed d (parse hostname)

unfoldable pub summaries_of : Dispatcher → Response
summaries_of d = record {
  status = 200;
  body = summaries (map experiment_summary (list_experiments d));
}

unfoldable pub experiment_response : Option Experiment → Response
experiment_response none = bare 404
experiment_response (some e) = record { status = 200; body = experiment (experiment_view e) }

unfoldable pub show_experiment : Dispatcher → String → Response
unfolding experiment_response
show_experiment d id = experiment_response (get_experiment d id)

unfoldable pub start_response : StartResult → Response
start_response (accepted e) = record { status = 201; body = experiment (experiment_view e) }
start_response (rejected failures) = record {
  status = 422;
  body = errors (map show_failure failures);
}

unfoldable halt_status : HaltOutcome → ℕ
halt_status not_found = 404
halt_status already_concluded = 409
halt_status halt_accepted = 202

unfoldable pub halt_experiment : Dispatcher → String → ℤ → Dispatcher × Response × List Sent
unfolding halt_status
halt_experiment d id now =
    let (d', outcome, sent) = halt d id "management API" now in
    (d', bare (halt_status outcome), sent)

unfoldable clear_status : ClearTaintOutcome → ℕ
clear_status unknown_host = 404
clear_status not_connected = 409
clear_status sent_ = 202

unfoldable clear_parsed : Dispatcher → ParseResult → Dispatcher × Response × List Sent
unfolding clear_status
clear_parsed d (err e) = (d, bare 404, [])
clear_parsed d (ok hostname) =
    let (outcome, sent) = relay_clear_taint d hostname in (d, bare (clear_status outcome), sent)

unfoldable pub clear_taint : Dispatcher → String → Dispatcher × Response × List Sent
unfolding clear_parsed
clear_taint d hostname = clear_parsed d (parse hostname)

-- a response that changes nothing
abbrev pub unchanged : Dispatcher → Response → Dispatcher × Response × List Sent
unchanged d r = (d, r, [])

module _ (encode : Params → Option String) where
  unfoldable pub run_experiment : Dispatcher → Extracted → ℤ → Dispatcher × Response × List Sent
  unfolding start_response
  run_experiment d (refused status) now = unchanged d (bare status)
  run_experiment d (definition x) now =
      let (d', result, sent) = start_experiment encode d x now in (d', start_response result, sent)

  -- the methods of `/agents`, `/agents/{hostname}`, `/experiments` and `/experiments/{id}`
  unfoldable on_one :
      Dispatcher → Method → Extracted → ℤ → String → Dispatcher × Response × List Sent
  on_one d get_ body now a =
      if str_eq a "agents"
      then unchanged d (list_agents d)
      else if str_eq a "experiments"
      then unchanged d (summaries_of d)
      else unchanged d (bare 404)
  on_one d post body now a =
      if str_eq a "agents"
      then unchanged d (bare 405)
      else if str_eq a "experiments"
      then run_experiment d body now
      else unchanged d (bare 404)

  unfoldable on_two : Dispatcher → Method → String → String → Response
  on_two d get_ a b =
      if str_eq a "agents"
      then get_agent d b
      else if str_eq a "experiments"
      then show_experiment d b
      else bare 404
  on_two d post a b =
      if str_eq a "agents" then bare 405 else if str_eq a "experiments" then bare 405 else bare 404

  -- the methods of `/agents/{hostname}/clear-taint` and `/experiments/{id}/halt`
  unfoldable on_three :
      Dispatcher → Method → ℤ → String → String → String → Dispatcher × Response × List Sent
  on_three d get_ now a b c =
      if str_eq a "agents" && str_eq c "clear-taint"
      then unchanged d (bare 405)
      else if str_eq a "experiments" && str_eq c "halt"
      then unchanged d (bare 405)
      else unchanged d (bare 404)
  on_three d post now a b c =
      if str_eq a "agents" && str_eq c "clear-taint"
      then clear_taint d b
      else if str_eq a "experiments" && str_eq c "halt"
      then halt_experiment d b now
      else unchanged d (bare 404)

  -- `router`; a parameter of a route takes no empty segment
  unfoldable pub route :
      Dispatcher → Method → List String → Extracted → ℤ → Dispatcher × Response × List Sent
  unfolding on_one on_two on_three
  route d method (a ∷ []) body now = on_one d method body now a
  route d method (a ∷ b ∷ []) body now =
      if is_empty b then unchanged d (bare 404) else unchanged d (on_two d method a b)
  route d method (a ∷ b ∷ c ∷ []) body now =
      if is_empty b then unchanged d (bare 404) else on_three d method now a b c
  route d method _ body now = unchanged d (bare 404)
