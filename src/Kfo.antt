-- ===== src/Kfo.antt =====
-- The kfo command, cmd/kfo/main.go, apart from its direct evaluation.
pub mod Parse
pub mod Flags
pub mod Remote
pub mod Main
