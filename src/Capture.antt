-- ===== src/Capture.antt =====
-- The TV capture supervisor of stack/backend/internal/tvcapture/supervisor.go.
pub mod Feed
pub mod Restarts
