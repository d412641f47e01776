-- ===== src/Tests.antt =====
-- A small network to try the definitions on, and what the laws say at concrete inputs.
pub mod Fixtures
pub mod Codec
pub mod Chains
pub mod Nodes
pub mod Services
pub mod Texts
pub mod Runs
pub mod Ballots
pub mod Late
pub mod Names
pub mod Rounds
pub mod Sessions
