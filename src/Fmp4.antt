-- ===== src/Fmp4.antt =====
-- fmp4: the sessions that make fragmented MP4 of a stream.
pub mod Message
pub mod HttpFmp4
pub mod Hls
pub mod HlsServer
