-- ===== src/Hook.antt =====
-- hook: the GOP cache of a stream, the session that hands messages to its consumers, and the
-- manager of sessions.
pub mod Rtmp
pub mod GopCache
pub mod Session
