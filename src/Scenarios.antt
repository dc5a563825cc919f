-- ===== src/Scenarios.antt =====
-- Concrete runs of the model: the agent's machine, and the master.
mod Machine
mod Master
mod Supervisor
mod Fleet
mod Stream
mod Agent
mod Marker
mod Process
mod Operator
mod Startup
