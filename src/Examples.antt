-- ===== src/Examples.antt =====
-- Runs of the models at concrete inputs.
mod Calendar
mod Sample
mod Rounding
mod Registry
mod Packages
mod Schedules
mod Commands
mod Configured
mod Digests
mod Turns
mod Judging
mod Planning
mod Applying
mod Files
mod Services
mod Whole
