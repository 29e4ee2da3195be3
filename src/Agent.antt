-- ===== src/Agent.antt =====
-- The agent of mesh_agent: what it may disclose, its profile, its tools and its turns.
pub mod Json
pub mod Provider
pub mod Sse
pub mod Profile
pub mod Disclosure
pub mod Tools
pub mod Router
pub mod Fake
pub mod Config
pub mod Harness
