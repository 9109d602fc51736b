-- ===== src/Policy.antt =====
-- internal/policy: the cron windows, the selectors and the evaluator.
pub mod Window
pub mod Selectors
pub mod Types
pub mod Candidates
pub mod Choice
pub mod Evaluator
