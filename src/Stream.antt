-- ===== src/Stream.antt =====
-- src/stream: the streamed answers, event by event.
pub mod Slots
pub mod Sse
