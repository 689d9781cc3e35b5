-- ===== src/Core.antt =====
-- src/vllm_observer/core.py: what one HTTP request accumulates while it is served.
pub mod Trace
pub mod Chain
