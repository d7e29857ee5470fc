-- ===== src/Sentry.antt =====
-- Sentry Mode: the sentinel file and the edge decision (`Controller`), and the worker that drives them
-- (`Worker`, its invariant in `Shadow`).
mod Tests
pub mod Controller
pub mod Worker
pub mod Shadow
