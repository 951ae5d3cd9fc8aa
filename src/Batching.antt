-- ===== src/Batching.antt =====
-- extension/src/monitor-batching.ts: lines are collected into batches, a rolling window watches
-- the share of dropped batches, and a token bucket limits the events.
pub mod Lines
pub mod Batcher
pub mod Window
pub mod Limiter
