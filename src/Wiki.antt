-- ===== src/Wiki.antt =====
-- The Wikipedia import of stack/backend/internal/wiki.
pub mod Bytes
pub mod Chunk
pub mod Changes
pub mod Delta
