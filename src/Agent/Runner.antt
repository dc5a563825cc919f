-- ===== src/Agent/Runner.antt =====
-- crates/agent/src/runner.rs: one plugin invocation. A `Child` says what the operating system answers to
-- each attempt to start the process and to each poll of it; durations are in milliseconds. The write to
-- the standard input may block for ever, as the pipe holds only so much; what error it ends with does
-- not matter. The threads that read the other pipes are left out, and so are their buffers.
pub mod Ends
use Prim.Native.String.{◌++◌}
use faultforge.Prelude.{
  ℕ, zero, suc, leb, String, Bool, true, false, not, Option, none, some, List, [], ◌∷◌,
  if◌then◌else◌,
}
use faultforge.Prelude.Int.{ℤ}
use faultforge.Fault.Protocol.{classify_exit}
use faultforge.Fault.Events.{PluginEvent}
use faultforge.Agent.Supervisor.{InvocationOutcome, exited, timed_out, signalled, failed}

pub data StdoutLine : Type 0 where
  event : (raw : String) → PluginEvent → StdoutLine
  malformed : (raw : String) → StdoutLine

-- `invoke` gives what it captured, the outcome, and whether it killed the process.
pub record Ran : Type 0 where
  pub lines : List StdoutLine
  pub stderr : String
  pub outcome : InvocationOutcome
  pub killed : Bool

-- an attempt to start the process, where `busy` is the error ETXTBSY
pub data Spawn : Type 0 where
  started : Spawn
  busy spawn_error : (error : String) → Spawn

-- `try_wait`; an exit with no code is that of a signal
pub data Poll : Type 0 where
  running : Poll
  ended : (code : Option ℤ) → Poll
  poll_error : (error : String) → Poll

-- `elapsed` is the time since the start of the wait at each poll; the texts are what the pipes gave in
-- the end. `takes_input` is whether the write of the input comes back: the process reads what the pipe
-- cannot hold, or closes it or ends. The write is before the wait and its timeout.
pub record Child : Type 0 where
  pub encode_error : Option String
  pub spawns : ℕ → Spawn
  pub takes_input : Bool
  pub polls : ℕ → Poll
  pub elapsed : ℕ → ℕ
  pub stdout : String
  pub stderr : String

-- The standard library's `lines` and `trim`, and serde_json's parser.
pub record Lines : Type 0 where
  pub lines_of : String → List String
  pub is_blank : String → Bool
  pub parse_event : String → Option PluginEvent

abbrev pub spawn_retries : ℕ
spawn_retries = 5

-- the loop of `spawn_entrypoint`, with so many retries left: its error
unfoldable pub spawn_entrypoint : Child → (left attempt : ℕ) → Option String
spawn_entrypoint child zero attempt = elim (child.spawns attempt) [
  | started ↦ none
  | busy e ↦ some e
  | spawn_error e ↦ some e
]
spawn_entrypoint child (suc left) attempt =
    let rest = spawn_entrypoint child left (suc attempt) in
    elim (child.spawns attempt) [ started ↦ none | busy e ↦ rest | spawn_error e ↦ some e ]

status_outcome : Option ℤ → InvocationOutcome
status_outcome none = signalled
status_outcome (some code) = exited (classify_exit code)

-- `wait_with_timeout` from a poll on, and whether the process was killed; `none` is out of fuel
unfoldable pub wait_with_timeout : Child → (timeout fuel n : ℕ) → Option (InvocationOutcome × Bool)
unfolding status_outcome
wait_with_timeout child timeout zero n = none
wait_with_timeout child timeout (suc fuel) n =
    let rest = wait_with_timeout child timeout fuel (suc n) in
    elim (child.polls n) [
      | ended code ↦ some (status_outcome code, false)
      | running ↦ if leb timeout (child.elapsed n) then some (timed_out, true) else rest
      | poll_error e ↦ some (failed ("wait failed: " ++ e), true)
    ]

unfoldable pub stdout_line : String → Option PluginEvent → StdoutLine
stdout_line raw (some e) = event raw e
stdout_line raw none = malformed raw

unfoldable pub split_lines : Lines → List String → List StdoutLine
unfolding stdout_line
split_lines text [] = []
split_lines text (l ∷ ls) =
    let rest = split_lines text ls in
    if text.is_blank l then rest else stdout_line l (text.parse_event l) ∷ rest

unfoldable pub split_stdout : Lines → String → List StdoutLine
unfolding split_lines
split_stdout text stdout = split_lines text (text.lines_of stdout)

-- `failed`
abbrev pub not_run : String → Ran
not_run reason = record { lines = []; stderr = ""; outcome = failed reason; killed = false }

unfoldable pub captured : Lines → Child → Option (InvocationOutcome × Bool) → Option Ran
captured text child none = none
captured text child (some (outcome, killed)) = some (record {
  lines = split_stdout text child.stdout;
  stderr = child.stderr;
  outcome = outcome;
  killed = killed;
})

-- `none` is an invocation that does not end, or is out of fuel.
unfoldable pub invoke : Lines → Child → (timeout fuel : ℕ) → Option Ran
unfolding captured
invoke text child timeout fuel = elim child.encode_error [
  | some e ↦ some (not_run ("could not encode plugin input: " ++ e))
  | none ↦ elim (spawn_entrypoint child spawn_retries 0) [
    | some e ↦ some (not_run ("spawn failed: " ++ e))
    | none ↦
        if child.takes_input
        then captured text child (wait_with_timeout child timeout fuel 0)
        else none
  ]
]
