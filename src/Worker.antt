-- ===== src/Worker.antt =====
-- The decisions of the worker-lifecycle lambda, stack/backend/internal/workerlifecycle.
pub mod Scale
pub mod Versions
pub mod Cleanup
