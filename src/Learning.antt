-- ===== src/Learning.antt =====
-- internal/service/learning_service.go, internal/service/learning_undo.go: the answers of a learner.
pub mod Answer
pub mod Store
pub mod Review
pub mod Reveal
pub mod Exposure
pub mod Undo
