-- ===== src/Srt.antt =====
-- srt: the stream ids that SRT callers send, and what publishers and subscribers are fed.
pub mod StreamId
pub mod Publisher
pub mod Subscriber
