-- ===== src/Tests.antt =====
-- Runs of the components at concrete inputs.
mod World
mod Policies
mod Unlocks
mod Observations
mod Commands
mod Processes
