-- ===== src/Sim.antt =====
-- The simulated network of the gateway, gateway/espstation_gateway/transports/sim: the wires
-- between the nodes, and a node's telemetry, digital link and experiments.
pub mod Wire
pub mod Digital
pub mod Telemetry
pub mod Outbox
pub mod Hello
pub mod Experiment
