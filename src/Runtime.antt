-- ===== src/Runtime.antt =====
-- gateway/espstation_gateway/runtime.py: what the gateway does with its links and nodes.
pub mod NodeIds
pub mod Sessions
pub mod Samples
pub mod Commands
pub mod Runs
