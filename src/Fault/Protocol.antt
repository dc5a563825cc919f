-- ===== src/Fault/Protocol.antt =====
-- crates/fault/src/protocol.rs: plugin commands, phases, and the exit-code table.
use text.Mathlib.Text.{◌==◌ as str_eq}
use faultforge.Prelude.{String, Bool, true, false, if◌then◌else◌, ◌==◌}
use faultforge.Prelude.Int.{ℤ, pos, negsuc}

pub data PluginCommand : Type 0 where
  preflight inject report abort cleanup : PluginCommand

pub data Phase : Type 0 where
  install runtime : Phase

pub data Disposition : Type 0 where
  success preflight_failed inject_failed recovery_failed : Disposition
  unexpected : ℤ → Disposition

-- the derived `PartialEq` of `PluginCommand`
abbrev pub command_eq : PluginCommand → PluginCommand → Bool
command_eq preflight preflight = true
command_eq inject inject = true
command_eq report report = true
command_eq abort abort = true
command_eq cleanup cleanup = true
command_eq _ _ = false

-- `PluginCommand::as_str`
unfoldable pub as_str : PluginCommand → String
as_str preflight = "preflight"
as_str inject = "inject"
as_str report = "report"
as_str abort = "abort"
as_str cleanup = "cleanup"

pub data ParseResult : Type 0 where
  ok : PluginCommand → ParseResult
  unknown_command : String → ParseResult

-- `PluginCommand::parse`
unfoldable pub parse : String → ParseResult
parse s =
    if str_eq s "preflight"
    then ok preflight
    else if str_eq s "inject"
    then ok inject
    else if str_eq s "report"
    then ok report
    else if str_eq s "abort"
    then ok abort
    else if str_eq s "cleanup"
    then ok cleanup
    else unknown_command s

-- `i32` equality
abbrev int_eq : ℤ → ℤ → Bool
int_eq (pos a) (pos b) = a == b
int_eq (negsuc a) (negsuc b) = a == b
int_eq _ _ = false

abbrev pub exit_success : ℤ
exit_success = pos 0

abbrev pub exit_preflight_failed : ℤ
exit_preflight_failed = pos 10

abbrev pub exit_inject_failed : ℤ
exit_inject_failed = pos 20

abbrev pub exit_cleanup_failed : ℤ
exit_cleanup_failed = pos 30

unfoldable pub classify_exit : ℤ → Disposition
classify_exit code =
    if int_eq code exit_success
    then success
    else if int_eq code exit_preflight_failed
    then preflight_failed
    else if int_eq code exit_inject_failed
    then inject_failed
    else if int_eq code exit_cleanup_failed
    then recovery_failed
    else unexpected code
