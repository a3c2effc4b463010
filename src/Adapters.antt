-- ===== src/Adapters.antt =====
-- src/agent_runtime/adapters/memory.py: the in-memory adapters of the ports in ports.py.
pub mod Queue
pub mod Leases
pub mod Checkpoints
pub mod Runs
pub mod Publisher
