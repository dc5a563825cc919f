-- ===== src/Cli/Output.antt =====
-- crates/cli/src/output.rs: what the command line prints. `Pretty` stands for serde_json's printer.
use Prim.Native.String.{◌++◌}
use faultforge.Prelude.{
  ℕ, zero, suc, ◌+◌, ◌-◌, ◌/◌, ltb, String, Bool, true, false, Option, none, some, List, [], ◌∷◌,
  ◌++◌ as append, map, if◌then◌else◌,
}
use faultforge.Prelude.Int.{ℤ, ltb_ℤ, pos_part, neg_part}
use faultforge.Prelude.Decimal.{show}
use faultforge.Cli.Model.{Agent, Cause, Instance, Experiment, ExperimentSummary, clamp_past}
use faultforge.Cli.Api.{Decoded, value, bad}

pub data OutputFormat : Type 0 where
  json table : OutputFormat

pub record Pretty : Type 0 where
  pub agents : List Agent → Decoded String
  pub agent : Agent → Decoded String
  pub experiments : List ExperimentSummary → Decoded String
  pub experiment : Experiment → Decoded String

-- the characters of a text
abbrev pub width : String → ℕ
width String.[] = 0
width (String.◌∷◌ _ s) = suc (width s)

abbrev pub repeat : String → ℕ → String
repeat s zero = ""
repeat s (suc n) = s ++ repeat s n

-- `{:<n}`
unfoldable pub pad : ℕ → String → String
pad n s = s ++ repeat " " (n - width s)

abbrev pub join_lines : List String → String
join_lines [] = ""
join_lines (l ∷ []) = l
join_lines (l ∷ ls) = l ++ ("\n" ++ join_lines ls)

-- whole seconds between two times
abbrev pub seconds_since : ℤ → ℤ → ℕ
seconds_since now last =
    (pos_part now + neg_part last - (pos_part last + neg_part now)) / 1000000000

unfoldable pub relative_age : ℤ → ℤ → String
relative_age now last_seen =
    let secs : ℕ = seconds_since now last_seen in
    if ltb_ℤ now last_seen
    then "just now"
    else if ltb secs 60
    then show secs ++ "s ago"
    else if ltb secs 3600
    then show (secs / 60) ++ "m ago"
    else show (secs / 3600) ++ "h ago"

or_error : String → String → Decoded String → String
or_error before after (value s) = s
or_error before after (bad e) = before ++ (e ++ after)

abbrev taint_cell : Bool → String
taint_cell true = "TAINTED"
taint_cell false = "-"

abbrev show_bool : Bool → String
show_bool true = "true"
show_bool false = "false"

-- a row of a table: two or three padded cells, and the last one
unfoldable pub row : List (ℕ × String) → String → String
row [] last = last
row ((n, cell) ∷ cells) last = pad n cell ++ (" " ++ row cells last)

-- the header, the line below it, and the rows
table_of : String → List String → String
table_of header rows = join_lines (header ∷ repeat "-" (width header) ∷ rows)

agent_row : ℤ → Agent → String
unfolding row
agent_row now a =
    row ((20, a.hostname) ∷ (20, a.name) ∷ (10, taint_cell a.tainted) ∷ [])
      (relative_age now a.last_seen)

render_agents_table : ℤ → List Agent → String
unfolding table_of agent_row
render_agents_table now [] = "(no agents registered)"
render_agents_table now (a ∷ agents) =
    table_of (row ((20, "HOSTNAME") ∷ (20, "NAME") ∷ (10, "TAINT") ∷ []) "LAST SEEN")
      (map (agent_row now) (a ∷ agents))

render_agent_table : ℤ → Agent → String
render_agent_table now a = join_lines (
    ("hostname:  " ++ a.hostname)
    ∷ ("name:      " ++ a.name)
    ∷ ("tainted:   " ++ show_bool a.tainted)
    ∷ ("last seen: " ++ relative_age now a.last_seen)
    ∷ [])

summary_row : ℤ → ExperimentSummary → String
summary_row now e =
    row ((28, e.id) ∷ (16, e.name) ∷ (10, e.state) ∷ (10, show e.instances) ∷ [])
      (relative_age now (clamp_past e.started_unix_ms))

render_experiments_table : ℤ → List ExperimentSummary → String
unfolding table_of summary_row
render_experiments_table now [] = "(no experiments)"
render_experiments_table now (e ∷ experiments) =
    table_of (row ((28, "ID") ∷ (16, "NAME") ∷ (10, "STATE") ∷ (10, "INSTANCES") ∷ []) "STARTED")
      (map (summary_row now) (e ∷ experiments))

-- `as_deref().unwrap_or("-")`
abbrev or_dash : Option String → String
or_dash none = "-"
or_dash (some s) = s

cause_lines : Option Cause → List String
cause_lines none = []
cause_lines (some c) =
    ("cause:    "
      ++ (c.reason
          ++ (" (host: "
              ++ (or_dash c.hostname ++ (", instance: " ++ (or_dash c.instance_id ++ ")"))))))
    ∷ []

instance_row : Instance → String
instance_row i = row ((40, i.instance_id) ∷ (20, i.hostname) ∷ (12, i.state) ∷ []) i.reason

abbrev instance_header : String
instance_header = row ((40, "INSTANCE") ∷ (20, "HOSTNAME") ∷ (12, "STATE") ∷ []) "REASON"

render_experiment_table : ℤ → Experiment → String
unfolding cause_lines instance_row
render_experiment_table now e = join_lines (
    append
      (("id:       " ++ e.id)
        ∷ ("name:     " ++ e.name)
        ∷ ("state:    " ++ e.state)
        ∷ ("outcome:  " ++ or_dash e.outcome)
        ∷ ("grace:    " ++ (show e.grace_secs ++ "s"))
        ∷ ("started:  " ++ relative_age now (clamp_past e.started_unix_ms))
        ∷ [])
      (append (cause_lines e.cause)
        ("" ∷ instance_header ∷ repeat "-" (width instance_header) ∷ map instance_row e.instances)))

module _ (pretty : Pretty) where
  unfoldable pub render_agents : List Agent → OutputFormat → ℤ → String
  unfolding or_error render_agents_table
  render_agents agents json now = or_error "[render error: " "]" (pretty.agents agents)
  render_agents agents table now = render_agents_table now agents

  unfoldable pub render_agent : Agent → OutputFormat → ℤ → String
  unfolding or_error render_agent_table
  render_agent agent json now = or_error "{render error: " "}" (pretty.agent agent)
  render_agent agent table now = render_agent_table now agent

  unfoldable pub render_experiments : List ExperimentSummary → OutputFormat → ℤ → String
  unfolding or_error render_experiments_table
  render_experiments experiments json now =
      or_error "[render error: " "]" (pretty.experiments experiments)
  render_experiments experiments table now = render_experiments_table now experiments

  unfoldable pub render_experiment : Experiment → OutputFormat → ℤ → String
  unfolding or_error render_experiment_table
  render_experiment experiment json now =
      or_error "{render error: " "}" (pretty.experiment experiment)
  render_experiment experiment table now = render_experiment_table now experiment
