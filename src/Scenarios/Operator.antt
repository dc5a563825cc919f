-- ===== src/Scenarios/Operator.antt =====
-- crates/cli/src against the management API: an operator's commands, on a link that carries bodies as they are.
use faultforge.Prelude.{
  arith, ap, ℕ, ◌≡◌, ◌≢◌, refl, ◌≤◌, String, true, false, Option, some, List, [], ◌∷◌, ◌++◌, map,
}
use faultforge.Prelude.Int.{ℤ, pos}
use faultforge.Prelude.Dict.{get}
use faultforge.Prelude.Decimal.{show, show_ℤ}
use Prim.Native.String.{◌++◌ as concat}
use Prim.Native.String.append
use Prim.Native.Char.{code}
use text.Mathlib.TextLemmas.{append_cancel_left}
use faultforge.Fault.Params.{Params}
use faultforge.Fault.State.{InstanceState}
use faultforge.Proto.Hostname.{parse}
use faultforge.Master.Experiment.{ExperimentDefinition, Experiment, is_concluded, mint_id}
use faultforge.Master.Dispatch.Store.{Call, starts, reports, expires, beats}
use faultforge.Master.Dispatch.Start.{start_experiment}
use mathlib.Core.List.{Perm}
use faultforge.Master.Dispatch.Listing.{values}
use faultforge.Master.Management.{Body, definition, list_agents, summaries_of}
use faultforge.Master.Management.Views.{AgentView, SummaryView, agent_view, experiment_summary}
use faultforge.Master.Management.Listed.{
  IsChained, IsNamedBefore, IsStartedBefore, lists-AreOrdered,
}
use faultforge.Master.Management.Routes.{halt_answer, clear_answer}
use faultforge.Cli.Model as Client
use faultforge.Cli.Api.{Http, unsent, Decoded, value, bad, ok}
use faultforge.Cli.Output.{table}
use faultforge.Cli.Script.{Exit, Shell, written, agents, experiment, clear, halt, run_file, run}
use faultforge.Cli.Tui.{Input, pressed, ticked, answered, down, char, event_loop, start, input}
use faultforge.Cli.Tui.Live.{IsLive, event_loop_refreshes}
use faultforge.Cli.Link.{Link, IsFaithful, as_read, connected}
use faultforge.Cli.Actions.{code_of, exit_of, halt-exits, clear_taint-exits}
use faultforge.Cli.Polls.{first_concluded, watched}
use faultforge.Cli.Seen.{phase_code}
use faultforge.Cli.Waited.{servers, run_waits}
use faultforge.Master.Experiment.{no_actions}
use faultforge.Master.Experiment.Validate.{validate}
use faultforge.Master.Dispatch.Start.{gather_actions, gather_host_facts}
use faultforge.Master.Management.Views.{show_failure}
use faultforge.Cli.Rejected.{rejection, run_rejected}
use faultforge.Cli.Unreached.{HasFailed, run_unreached}
use faultforge.Scenarios.Master.{master, smoke, smoke_passes, busy}

read_body : Body → Decoded Client.Experiment
read_body (Body.experiment v) = value (as_read v)
read_body _ = bad "no experiment"

abbrev direct : Link ExperimentDefinition Body
direct = record {
  path_of = λ segments. segments;
  extract = definition;
  body = λ b. b;
  text = λ b. "";
  agent = λ b. bad "";
  agents = λ b. bad "";
  experiment = read_body;
  experiments = λ b. bad "";
  errors = λ t. bad "";
}

direct-IsFaithful : IsFaithful direct
unfolding read_body
direct-IsFaithful = record { reads = λ v. refl }

abbrev terminal : Shell ExperimentDefinition
terminal = record {
  pretty = record {
    agents = λ a. bad "";
    agent = λ a. bad "";
    experiments = λ e. bad "";
    experiment = λ e. bad "";
  };
  action_json = λ action subject note. "";
  read = λ file. value smoke;
  write = written;
  now = pos 100;
}

abbrev encode : Params → Option String
encode p = some "{}"

abbrev heard : List Call
heard = beats "a" (pos 30) ∷ []

-- a beat and another start after the deadline
abbrev later : List Call
later = beats "a" (pos 40) ∷ starts smoke (pos 41) ∷ []

-- one report before the first poll, and the deadline before the second
abbrev progress : List (List Call × ℤ)
progress = (reports (("exp-5-0:a:0", InstanceState.error, "inject", pos 20) ∷ []) ∷ [], pos 21) ∷ []

abbrev first_code : String → ℕ
first_code String.[] = 0
first_code (String.◌∷◌ c s) = code c

other_id : (seq : ℕ) → mint_id (pos 41) seq ≢ mint_id (pos 5) 0
unfolding mint_id show_ℤ show
other_id seq same =
    let tail : concat "41" (concat "-" (show seq)) ≡ "5-0" =
      append_cancel_left "exp-" (concat "41" (concat "-" (show seq))) "5-0" same in
    let found : String.◌∷◌ "4" (concat "1" (concat "-" (show seq))) ≡ "5-0" =
      rw append.cons at tail in
    let codes : ◌≡◌ {A = ℕ} 52 53 = ap first_code found in absurd (omega (arith, codes))

run_waits_example :
    let id = mint_id (pos 5) 0 in
    let polls =
      watched encode
        (start_experiment encode master smoke (pos 5)).0
        (progress ++ (heard ++ expires id (pos 40) ∷ later, pos 41) ∷ []) in
    (e : Experiment) × (first_concluded polls id ≡ some e)
    × (is_concluded e ≡ true)
    × (code_of (
          run terminal table
            (ok (connected direct encode master (pos 5)))
            (servers direct encode polls)
            (experiment (run_file "smoke.yaml" true)))
        ≡ some (phase_code e.phase))
run_waits_example =
    run_waits direct encode direct-IsFaithful terminal table master (pos 5) smoke "smoke.yaml"
      progress heard later (pos 40) (pos 41) refl refl refl refl refl smoke_passes tt
      (tt, (other_id _, tt))

halt-exits_example :
    code_of (
      run terminal table
        (ok (connected direct encode busy (pos 9)))
        []
        (experiment (halt "exp-5-0")))
    ≡ some (exit_of (halt_answer (get "exp-5-0" busy.store)))
halt-exits_example =
    halt-exits direct encode busy (pos 9) terminal table [] "exp-5-0" refl refl refl

clear_taint-exits_example :
    code_of (run terminal table (ok (connected direct encode busy (pos 9))) [] (agents (clear "a")))
    ≡ some (exit_of (clear_answer busy (parse "a")))
clear_taint-exits_example =
    clear_taint-exits direct encode busy (pos 9) terminal table [] "a" refl refl refl

abbrev presses : List (Input × ℤ)
presses =
    (pressed down false, pos 1)
    ∷ (answered (ok []), pos 2)
    ∷ (pressed (char b'r') false, pos 3)
    ∷ []

event_loop_refreshes_example :
    IsLive (event_loop start presses)
    × (1 ≤ (input (event_loop start presses) ticked (pos 4)).in_flight)
event_loop_refreshes_example = event_loop_refreshes presses (pos 4)

lists-AreOrdered_example :
    ((views : List AgentView) × ((list_agents busy
          ≡ record { status = 200; body = Body.agents views })
        × (Perm views (map agent_view (values busy.registry)) × IsChained IsNamedBefore views)))
    × ((listed : List SummaryView) × ((summaries_of busy
            ≡ record { status = 200; body = Body.summaries listed })
          × (Perm listed (map experiment_summary (values busy.store))
              × IsChained IsStartedBefore listed)))
lists-AreOrdered_example = lists-AreOrdered busy

-- an experiment with no actions, and the link that reads its rejection
abbrev idle : ExperimentDefinition
idle = record { name = "idle"; actions = [] }

abbrev strict : Link ExperimentDefinition Body
strict = record direct { errors = λ t. value ("experiment has no actions" ∷ []) }

idle_is_rejected : validate idle master.catalog (gather_host_facts master idle) ≡ no_actions ∷ []
unfolding validate gather_actions
idle_is_rejected = refl

idle_reads : value ("experiment has no actions" ∷ []) ≡ value (map show_failure (no_actions ∷ []))
unfolding show_failure
idle_reads = refl

run_rejected_example :
    (run
        (record terminal { read = λ file. value idle })
        table
        (ok (connected strict encode master (pos 5)))
        []
        (experiment (run_file "idle.yaml" true))
      ≡ some (rejection (no_actions ∷ [])))
    × ((start_experiment encode master idle (pos 5)).0 ≡ master)
    × ((start_experiment encode master idle (pos 5)).2 ≡ [])
run_rejected_example =
    run_rejected strict encode refl master (pos 5) idle no_actions [] refl idle_is_rejected
      idle_reads (record terminal { read = λ file. value idle }) table [] "idle.yaml" true refl

-- a client that nobody answers
abbrev cut_off : Http ExperimentDefinition Body
cut_off = record (connected direct encode master (pos 5)) {
  send = λ method segments body. unsent false true "connection refused";
}

run_unreached_example :
    (x : Exit) × (run terminal table (ok cut_off) [] (experiment (run_file "smoke.yaml" true))
      ≡ some x)
    × HasFailed x
run_unreached_example =
    run_unreached terminal table cut_off
      (λ method segments body. (false, true, "connection refused", refl)) []
      (experiment (run_file "smoke.yaml" true))
