-- ===== src/Session.antt =====
-- internal/service/session_progress.go and the card selection of internal/service/pool_service.go.
pub mod Progress
pub mod Cards
pub mod View
