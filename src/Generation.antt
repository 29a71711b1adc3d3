-- ===== src/Generation.antt =====
-- internal/service/pool_service.go: where the new words of a day come from. Bank: the words that the
-- database has; Mix: the kinds of words; Select: the loops of generateNewWordsWithSource; Source: the
-- developer's list before the language service; Fresh and Daily: what holds of the words.
pub mod Bank
pub mod Mix
pub mod Select
pub mod Source
pub mod Fresh
pub mod Attempts
pub mod Daily
pub mod BankFirst
