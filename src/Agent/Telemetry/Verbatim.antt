-- ===== src/Agent/Telemetry/Verbatim.antt =====
-- crates/agent/src/runner.rs and supervisor.rs: the frames for what a plugin wrote.
use mathlib.Core.Option.{some-injective}
use mathlib.Core.Path.{subst}
use mathlib.Core.List.{append-nil}
use faultforge.Prelude.{
  All, ap, ℕ, suc, ◌≡◌, refl, String, Bool, false, arith, Option, none, some, List, [], ◌∷◌, map,
}
use faultforge.Fault.Events.{PluginEvent}
use faultforge.Proto.Messages.{fault_event}
use faultforge.Agent.Supervisor.{InvocationOutcome}
use faultforge.Agent.Runner.{
  StdoutLine, event, Ran, Lines, Child, spawn_retries, spawn_entrypoint, wait_with_timeout,
  captured, stdout_line, split_lines, split_stdout, invoke,
}
use faultforge.Agent.Telemetry.{Log, forward_lines, forward_stderr, forward_telemetry}

-- The line of an event, as the plugin writes it, is not blank and reads as the event that it was.
abbrev pub IsPlain : Lines → (PluginEvent → String) → PluginEvent → Type 0
IsPlain text encode e = (text.is_blank (encode e) ≡ false) × (text.parse_event (encode e) ≡ some e)

-- the line of an event
abbrev line_of : (PluginEvent → String) → PluginEvent → StdoutLine
line_of encode e = event (encode e) e

split_lines-map :
    (text : Lines) (encode : PluginEvent → String) (events : List PluginEvent)
    → All (IsPlain text encode) events
    → split_lines text (map encode events) ≡ map (line_of encode) events
unfolding split_lines stdout_line
split_lines-map text encode [] plain = refl
split_lines-map text encode (e ∷ events) ((filled, reads), plain) =
    rw (filled, reads, split_lines-map text encode events plain) refl

forward_lines-map :
    (text : Lines) (logs : Log) (id : String) (encode : PluginEvent → String) (n : ℕ)
    (events : List PluginEvent)
    → forward_lines text logs id n (map (line_of encode) events)
      ≡ map (λ e. fault_event id (encode e)) events
unfolding forward_lines
forward_lines-map text logs id encode n [] = refl
forward_lines-map text logs id encode n (e ∷ events) =
    ap (λ fs. fault_event id (encode e) ∷ fs) (forward_lines-map text logs id encode (suc n) events)

captured-telemetry :
    (text : Lines) (logs : Log) (encode : PluginEvent → String) (child : Child) (id : String)
    (events : List PluginEvent) (ran : Ran) (w : Option (InvocationOutcome × Bool))
    → All (IsPlain text encode) events
    → text.lines_of child.stdout ≡ map encode events
    → text.lines_of child.stderr ≡ []
    → captured text child w ≡ some ran
    → forward_telemetry text logs id ran ≡ map (λ e. fault_event id (encode e)) events
unfolding captured split_stdout forward_telemetry forward_stderr
captured-telemetry text logs encode child id events ran none plain out quiet h = absurd cc
captured-telemetry text logs encode child id events ran (some (o, killed)) plain out quiet h =
    subst (λ r. forward_telemetry text logs id r ≡ map (λ e. fault_event id (encode e)) events)
      (some-injective _ ran h)
      (rw
        (
          quiet,
          out,
          split_lines-map text encode events plain,
          forward_lines-map text logs id encode 0 events,
        )
        (append-nil (map (λ e. fault_event id (encode e)) events)))

-- A process that starts is waited for, unless the write of its input blocks.
invoke-started :
    (text : Lines) (child : Child) (timeout fuel : ℕ)
    → child.encode_error ≡ none
    → spawn_entrypoint child spawn_retries 0 ≡ none
    → (ran : Ran) → invoke text child timeout fuel ≡ some ran
    → captured text child (wait_with_timeout child timeout fuel 0) ≡ some ran
unfolding invoke
invoke-started text child timeout fuel coded spawned ran result = ground arith

-- For an invocation that has come to its end, where the plugin's process started, at the first attempt
-- or after retries, its standard
-- output is the lines of some events, none of them blank and each one read as its event, and its
-- standard error has no line: the frames for the master are those lines, each as it was written,
-- once and in order, under the instance's id. This holds whether the process exits, is killed at
-- the timeout, or cannot be waited for.
pub telemetry_verbatim :
    (text : Lines) (logs : Log) (encode : PluginEvent → String) (child : Child) (timeout fuel : ℕ)
    (id : String) (events : List PluginEvent) (ran : Ran)
    → All (IsPlain text encode) events
    → child.encode_error ≡ none
    → spawn_entrypoint child spawn_retries 0 ≡ none
    → text.lines_of child.stdout ≡ map encode events
    → text.lines_of child.stderr ≡ []
    → invoke text child timeout fuel ≡ some ran
    → forward_telemetry text logs id ran ≡ map (λ e. fault_event id (encode e)) events
telemetry_verbatim text logs encode child timeout fuel id events ran plain coded spawned out quiet
      result =
    captured-telemetry text logs encode child id events ran (wait_with_timeout child timeout fuel 0)
      plain out quiet (invoke-started text child timeout fuel coded spawned ran result)
