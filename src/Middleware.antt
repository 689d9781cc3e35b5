-- ===== src/Middleware.antt =====
-- src/vllm_observer/middleware.py: the ASGI middleware that traces a request of the API server.
pub mod Headers
pub mod Content
pub mod Call
pub mod Dispatch
pub mod Lifespan
pub mod Serve
pub mod Setup
mod Tests
