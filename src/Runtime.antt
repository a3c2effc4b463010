-- ===== src/Runtime.antt =====
-- src/agent_runtime/runtime.py: the engine. Its state is in Runtime/State, the methods in the
-- modules beside it, and what the engine promises in the modules after those.
pub mod State
pub mod Registry
pub mod Submit
pub mod Control
pub mod Execute
pub mod Worker
pub mod Construct
pub mod Steps
pub mod Execution
pub mod Refinement
pub mod Invariant
pub mod KeptByFsm
pub mod Kept
pub mod KeptByCalls
pub mod KeptByControl
pub mod Reopen
pub mod Always
pub mod Cleanup
pub mod Eviction
pub mod Replay
pub mod Held
pub mod Admission
pub mod Resubmit
