-- ===== src/Service.antt =====
-- The fact-checking service of stack/backend/internal/service.
pub mod Verdicts
pub mod Memory
pub mod ClaimCache
pub mod Events
pub mod Gate
pub mod Analyzer
pub mod Path
pub mod Batch
pub mod Steps
pub mod Shown
pub mod Counting
pub mod Parity
pub mod Sentences
pub mod Live
pub mod Unit
pub mod Pool
pub mod Setup
pub mod Router
pub mod Matching
