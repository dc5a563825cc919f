-- ===== src/Cli.antt =====
-- crates/cli/src: the operator's command line, a client of the management API.
pub mod Model
pub mod Api
pub mod Output
pub mod Script
pub mod Tui
pub mod Link
pub mod Polls
pub mod Seen
pub mod Waited
pub mod Rejected
pub mod Unreached
pub mod Actions
