-- ===== src/Config.antt =====
-- internal/config/config.go: the configuration, its validation, and the retention rule that a policy
-- stands for. Reading the file and decoding YAML are given. A Go map is an association
-- list with distinct keys.
pub mod Types
pub mod Rules
pub mod Validate
pub mod Secrets
pub mod Valid
pub mod Load
