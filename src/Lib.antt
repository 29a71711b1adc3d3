-- ===== src/Lib.antt =====
-- The learning core of wordbit-advanced, a Go backend that teaches vocabulary: a user meets new words,
-- answers exercises about them, and the server decides when a word comes back, in which exercise,
-- and which card is shown next.
--
-- Parts, and the files that model them (paths from the root of the repository):
--
--   Prelude, Float64   Boolean tests, Go's int, lists, equality; float64 as an interface.
--   Domain             internal/domain/models.go, common_rate.go, defaults.go: enumerations, the
--                      records Word, UserWordState, DailyLearningPool(Item), LearningEvent.
--   Normalization      internal/service/normalization.go: NormalizeWord, ConfusableGroupFor.
--   Scheduling         internal/service/logic.go. Quotas: ComputeWeakSlots, ComputeNewWordQuota and
--                      ComputeNewWordPrefetchBatchSize; Mode: SelectReviewMode and its helpers;
--                      Weakness: the weakness score; Outcome: ApplyFirstExposureUnknown and -Known,
--                      ApplyReviewOutcome, ApplyBonusPracticeOutcome; Feedback:
--                      ApplyWordConstructionFeedback and the shortened review.
--   MemoryCause        internal/service/memory_cause.go: InferMemoryCause, levenshteinDistance,
--                      ApplyMemoryCause, ApplyMemoryCauseIntervalBias.
--   ReviewModes        internal/service/pool_service.go and word_set_service.go: the modes a word set
--                      enables, selectEnabledReviewMode, capListeningReviewItems,
--                      normalizeEnabledReviewModes.
--   Session            internal/service/session_progress.go and the selection in pool_service.go.
--                      Progress: what the day's events say was done, nextSessionKind; Cards: the
--                      candidates, bestActionableItem, findNextCardForSession; View: nextCardFromView.
--   Sorting            the stable sort that the code calls (sort.SliceStable), and its laws.
--   Dedup              internal/service/dedup.go: FilterCandidates with ValidateCandidate, the tests for
--                      duplicates and rankCandidate; Exclusions: the words a prompt excludes, with
--                      their caps.
--   Dictionary         internal/service/dictionary_service.go, word_import_buffer_service.go: the entries
--                      that a user writes or imports, and the states of listed words.
--   Generation         internal/service/pool_service.go: generateNewWordsWithSource, the developer list
--                      and the selection behind it. Bank: the filter of the words of the database; Mix:
--                      the targets of each kind of item; Select: the loops; Source: the whole call.
--   Pool               internal/service/pool_service.go: the items that a new pool of the day is created
--                      with, from the states and the new words that were found for it. Sync:
--                      syncPendingPoolItems; Reconcile: reconcileScheduledPoolItems; Buffer: the new
--                      words that wait in a pool (maintainNewWordBuffer and what it calls); Practice: the
--                      states of bonus practice (listBonusPracticeCandidates), and the items for them;
--                      DailyRows and Daily: GetOrCreateDailyPool and MaintainNewWordBuffer, and
--                      internal/service/topics.go.
--   Quota              internal/integrations/gemini/executor.go: quotaCache with reserve,
--                      markRateLimited, prune and blockedUntil.
--   Executor           executor.go and client.go of the same directory: executeJSON, executeOnModel and
--                      the pauses between attempts.
--   DynamicReview      internal/service/dynamic_review_service.go: the reviews that get a generated prompt.
--                      Validation: validateDynamicReviewPayload; Table: the rows of
--                      internal/repository/postgres/dynamic_review_prompt_repository.go; Prompts:
--                      ensurePrompts with its chunks.
--   Learning           internal/service/learning_service.go and learning_undo.go. Answer: the states that
--                      answers, first exposures and reveals store; Store: the rows of one user and the
--                      statements of internal/repository/postgres/pool_repository.go on them; Review:
--                      SubmitReview with its follow-up; Exposure: SubmitFirstExposure, which maintains the
--                      pool by Pool.Daily; Reveal:
--                      SubmitReveal and SubmitPronunciation; Undo: UndoLastAnswer.
--   Examples           concrete inputs: an instance of Float64 that runs, and each result applied.
--
-- How they interact: an answer goes through Outcome, MemoryCause and Feedback, which give the word's
-- new state; Mode and ReviewModes choose the exercise of its next card from that state and from the
-- word set; Learning puts these together over the rows of a user and keeps what an undo needs; Session
-- picks among the cards of the day. A pool of the day is made by Pool from states and from new words,
-- which Generation takes from the database and then from the language service, whose candidates pass
-- Dedup; Buffer calls Generation again when no new word is left, Reconcile adds what has come due, and
-- Sync follows the states. Executor carries a request to the language service, and asks Quota before
-- each model that it tries. DynamicReview asks that service for sentences about the reviews of a pool,
-- and stores those that pass its validation.
--
-- Correspondence. A Go function f is the definition f in snake case, with the same parameters less
-- contexts, loggers and the clock, whose time is the parameter `now`. A pointer that may be nil is an
-- Option, a string constant a constructor, and "" the constructor `unset`. Counters that only grow
-- from zero are natural numbers; other ints are the integers of Prelude.Int, without overflow. A time
-- is a natural number of nanoseconds since the first instant of the year 1, and a duration is added in
-- whole seconds. Loops are structural recursion over the list that the code ranges over, with the
-- local variables as arguments, so that no fuel is needed. The floating-point numbers are a type F
-- with an instance of Float64, which states no law: what is proved of them holds of IEEE arithmetic,
-- NaN included, and a law that a result needs is among its hypotheses. Go's Unicode tables are the
-- record Unicode.
--
-- The retries of Executor and the attempts of Generation are structural on the attempts that are left,
-- whose number the code fixes before its loop, so that no fuel is needed there either. The chunks of
-- DynamicReview.Prompts are cut in as many rounds as there are candidates, which is enough since each
-- takes at least one. The network, the clock, and the decoding of JSON and of durations are the record
-- Service of Executor; the database and the language service are the records WordSource of Generation,
-- StateRows of Pool.Practice, DailyPoolService of Pool.DailyRows and PromptSource of DynamicReview, and a hypothesis on them says only
-- what the statement of the database that the code runs documents, such as that it leaves out given
-- identifiers. A state that is read has no set, since no statement reads that column.
--
-- In Learning the database does not fail, and an error is a missing row or a refused request; the JSON
-- of an undo snapshot is the snapshot itself; the local date of an instant, the modes of a word's set
-- and the identifier of a new item are fields of LearningService.
--
-- Not modelled: the rest of the SQL of the repositories, HTTP, authentication, configuration, the
-- prompts of the language service, the parsing of its answers and the log of its runs, the wording of
-- errors, statistics and recordings. They are input and output around the parts above, or
-- calls of the database.
pub mod Prelude
pub mod Float64
pub mod Dictionary
pub mod Domain
pub mod Normalization
pub mod Scheduling
pub mod MemoryCause
pub mod ReviewModes
pub mod Session
pub mod Pool
pub mod Sorting
pub mod Dedup
pub mod DynamicReview
pub mod Executor
pub mod Generation
pub mod Quota
pub mod Learning
mod Examples
