-- ===== src/Examples.antt =====
-- Concrete inputs: a fixed-point instance of the float interface, sample records, and each result
-- applied to a case.
mod Fixed
mod Samples
mod Scheduling
mod Recall
mod Sets
mod Sessions
mod Quotas
mod Answers
mod Pools
mod Candidates
mod Requests
mod Generated
mod Days
mod Prompts
mod Exposures
mod Practice
mod Entries
