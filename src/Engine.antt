-- ===== src/Engine.antt =====
-- internal/engine/engine.go: discovery, planning, safety limits and the application of a plan.
pub mod Parsing
pub mod Safety
pub mod State
pub mod Planning
pub mod Apply
pub mod Safe
pub mod Preflight
