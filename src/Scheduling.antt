-- ===== src/Scheduling.antt =====
-- internal/service/logic.go: the spaced-repetition scheduler. Mode chooses the exercise, Weakness
-- scores a word, Outcome applies an answer, Feedback applies what a construction exercise showed.
pub mod Quotas
pub mod Mode
pub mod Weakness
pub mod Outcome
pub mod Feedback
