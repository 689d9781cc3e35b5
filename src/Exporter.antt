-- ===== src/Exporter.antt =====
-- src/vllm_observer/exporter.py: the background export of finished requests.
pub mod Stage
pub mod Timeline
pub mod Details
pub mod Nodes
pub mod Queue
pub mod Sink
pub mod Settings
mod Tests
