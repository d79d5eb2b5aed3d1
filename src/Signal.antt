-- ===== src/Signal.antt =====
-- Signals: src/lib/signal.c and src/kernel/signal.c.
pub mod Set
pub mod Table
