-- ===== src/Github.antt =====
-- internal/provider/github/github.go: the client of GitHub's container registry.
pub mod Tags
pub mod Requests
pub mod Client
pub mod Setup
