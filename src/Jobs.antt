-- ===== src/Jobs.antt =====
-- The queue consumers of the backend: stack/backend/internal/embedjob and crawljob. The broker, the
-- store, the embedding client, JSON and the context are the record `Env` over a state of the
-- outside world, which every call may change; logging is left out.
pub mod Broker
pub mod Embedding
pub mod Batching
pub mod Crawl
