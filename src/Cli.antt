-- ===== src/Cli.antt =====
-- src/cli.ts: the command line, and the run of one command.
pub mod Arguments
pub mod Run
