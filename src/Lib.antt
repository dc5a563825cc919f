-- ===== src/Lib.antt =====
-- FaultForge: a fault-injection system for bare-metal hosts. A master validates an experiment,
-- dispatches one fault instance for each host and action to the agents over their open sessions, and
-- halts it on the operator's word, on an error or on a taint. Each agent runs its instances through
-- a state machine that must undo the fault in the end, or quarantine the host. The fault itself is
-- the work of a plugin, a program that both master and agent know by the digest of its directory.
--
-- The modules and the code that each is about:
-- - Prelude: lists, tests, signed integers, decimals, texts as bytes, sorting, and maps as association
--   lists. Config is the builder of the config crate, which both binaries fill.
-- - Fault (crates/fault/src): the contract that master, agents and plugins share. State and Wire are
--   state.rs and proto.rs, Protocol and Events protocol.rs, Params params.rs, Digest digest.rs,
--   Manifest manifest.rs, and Catalog catalog.rs with `load_plugin`.
-- - Proto (crates/proto): `Hostname::parse` of src/lib.rs, and the messages of proto/faultforge.proto.
-- - Agent.Machine (crates/agent/src/machine.rs): the types; its child Step is `step`, with one helper
--   for each state, and Clock has `next_stop`. Valid, Status, Safety and Progress are theorems.
-- - Agent.Host (journal.rs and taint.rs of crates/agent/src): the journal and the taint marker.
-- - Agent.Catalog (crates/agent/src/catalog.rs): `resolve_verified`, the digest gate.
-- - Agent.Setup, Agent.Supervisor, Agent.Instances (crates/agent/src/supervisor.rs): `setup`, the
--   checks before the first invocation; `run_instance`, the loop round the machine, with the effects
--   that it applies; and the map of instances with what a frame of the master does to it. Agent.Wait is
--   `wait_for_stop`, the wait of an active instance, and Agent.Quarantine `handle_clear_taint`.
-- - Agent.Runner (crates/agent/src/runner.rs): `invoke`, one run of a plugin.
-- - Agent.Replay (crates/agent/src/supervisor.rs): `replay_entry`, the recovery of a journal entry after a
--   restart; its child Boot is `replay_journal`, with `Journal::list` of journal.rs.
-- - Agent.Session (crates/agent/src/session.rs): the attempts of `run_agent`, each a `run_session`;
--   Agent.Start is what it does before them, and Agent.Config `load_config` of config.rs.
-- - Agent.Telemetry (crates/agent/src/supervisor.rs): `forward_telemetry`.
-- - Master.Catalog, Master.Registry, Master.Sessions (catalog.rs, registry.rs and sessions.rs of
--   crates/master/src): the master's maps, and `load_catalog`.
-- - Master.Experiment (crates/master/src/experiment.rs): the types; Validate is `validate`, Mint is
--   `mint_experiment`, and Record has the methods of `Experiment`. Outcome, Acceptable and Ids are
--   theorems.
-- - Master.Dispatch (crates/master/src/dispatch.rs): Switch has what runs on one record under the
--   store lock, Frames the dispatcher's state and what it sends, Start `start_experiment`, Handlers
--   the other operations, Listing `list_experiments`, and Store any sequence of calls. The other
--   modules are theorems.
-- - Master.Session (crates/master/src/session.rs): the frames of one stream, each a call of the
--   dispatcher, and the end of the stream.
-- - Master.Management (crates/master/src/management.rs): the handlers and `router`; its child Views has
--   the JSON views. Master.Config and Master.Server are config.rs and server.rs.
-- - Cli.Api and Cli.Model (crates/cli/src/api): the client of the management API. Cli.Script is script.rs,
--   Cli.Output output.rs, and Cli.Tui the model, update and event loop of tui. Cli.Link joins the client
--   to Master.Management, and Actions, Polls, Seen, Waited, Rejected and Unreached are
--   theorems about the two.
-- - Plugins.NoopMarker (crates/plugins/noop-marker/src/main.rs): the reference plugin.
-- - Scenarios: concrete runs.
--
-- How the code is read. A `&mut` receiver is passed and returned. An operation returns the frames
-- that it delivers, in order; a frame for a host with no open stream is not delivered. The time that
-- a clock would give is an argument. The store lock is held for the whole change of a record, so
-- calls are one sequence, and the theorems quantify over every sequence. A task that sleeps until
-- the deadline is a call of `resolve_deadline` at any point of it. Text is Rust's UTF-8 text, and a
-- newtype over text is its text. A `HashMap` or `BTreeMap` is a list of entries with one entry for
-- each key, in any order. The two counters wrap at 2 ^ 64. A `SystemTime` of the command line is in
-- nanoseconds; all other times are `i64` milliseconds; the sums of the deadline stay far below the
-- bound for any clock of this age, and `next_stop` saturates as the code does. Loops are structural
-- recursion, but for three that have fuel: those of `run_instance` and `replay_entry`, a unit for
-- each round, and the timed wait for a plugin, a unit for each poll. There are proofs that some
-- amount is enough for every world of the first, five for the second, and one more than the polls
-- that fit in the timeout for the third.
--
-- Parameters. `Files` stands for the files of a plugin directory with their SHA-256 and the YAML
-- decoder; `encode` and `decode` for serde_json on parameters; `Os` for the path functions of the
-- standard library, serde_json and humantime in the plugin. A `World` stands for what an instance's
-- shell meets: the results of its setup, of the wait while active, of each plugin invocation with
-- the stops that come in meanwhile, and of its file operations; a `Disk` is the like for the replay
-- and for the plugin, and a `Directory` for the listing of the journal. An `Attempt` stands for what
-- the network does to one session of an agent, and a `Child` for what the operating system answers
-- about a process. `Http` stands for reqwest, url and serde_json in the command line, a `Shell` for
-- its file and its output, and a `Link` for the HTTP between it and the master. The `config` crate
-- is a function from the builder to what it loads. Nothing is assumed of any of them, except that
-- serde_json can parse what it wrote, that the path of a request at hand comes to the router as the
-- client wrote it (the url crate drops dot segments, and tabs and line breaks), that the write of a
-- plugin's input comes back, and that a sleep of 25 ms lasts 25 ms at least. A theorem names what it
-- needs of these.
--
-- Not modelled: log lines, the pipes of a plugin with their buffers (crates/agent/src/runner.rs),
-- though the write of its input may block for ever; what the network does with a frame that a
-- session's channel accepted; a stream of the master whose receiver goes before its task ends; a
-- journal file whose name is not that of its entry; the `main` functions with the parsing of
-- arguments by clap, the drawing of crates/cli/src/tui/view.rs and the terminal's set-up, axum and
-- tonic with the `HEAD` requests that axum answers, the container tests, and the decoding of YAML,
-- JSON and protobuf. What axum and tonic do is their own; the rest is input, output or generated
-- code.
pub mod Prelude
pub mod Config
pub mod Fault
pub mod Proto
pub mod Agent
pub mod Master
pub mod Cli
pub mod Plugins
pub mod Scenarios
