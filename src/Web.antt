-- ===== src/Web.antt =====
-- The HTTP middleware of stack/backend/internal/middleware.
pub mod RateLimit
