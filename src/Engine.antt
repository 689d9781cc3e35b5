-- ===== src/Engine.antt =====
-- The EngineCore process: stages.py, deadline.py and engine_clock.py of src/vllm_observer.
pub mod Registry
pub mod Clock
pub mod Executor
pub mod Output
pub mod Invariant
pub mod Deadline
mod Tests
