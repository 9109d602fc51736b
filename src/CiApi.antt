-- ===== src/CiApi.antt =====
-- The CI helper: internal/api/server.go, and the kfo command's direct evaluation, cmd/kfo/main.go.
pub mod Server
pub mod Auth
pub mod Serve
pub mod Command
pub mod Agreement
