-- ===== src/Policy.antt =====
-- pkg/policy/policy.go: the retention policy evaluator. The children hold its parts: the tag parsers
-- (Numbers, Dates, Calendar, Regex), the ordering of artifacts (Order), the loop body (Judge), the
-- evaluation itself (Evaluate) and the repository globs (Globs).
pub mod Types
pub mod Numbers
pub mod Dates
pub mod Calendar
pub mod Regex
pub mod Order
pub mod Judge
pub mod Evaluate
pub mod Globs
