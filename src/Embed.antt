-- ===== src/Embed.antt =====
-- The embedding client of stack/backend/internal/embed.
pub mod Retry
pub mod Cached
