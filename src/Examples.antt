-- ===== src/Examples.antt =====
-- Concrete inputs: the theorems applied where their hypotheses hold, and tests by evaluation.
pub mod Numbers
pub mod Verdicts
pub mod Claims
pub mod Sessions
mod Fleet
mod Embedding
mod Ids
mod Caching
mod Captures
mod Queues
mod Articles
mod Syncs
mod Limits
mod Routes
mod Schedules
mod Matches
mod Units
mod Scores
mod Pools
mod Analyzers
