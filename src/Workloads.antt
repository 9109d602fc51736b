-- ===== src/Workloads.antt =====
-- internal/webhook/workloads/validator.go: the admission webhook for workloads.
pub mod Request
pub mod Message
pub mod Handler
