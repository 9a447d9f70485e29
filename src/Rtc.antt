-- ===== src/Rtc.antt =====
-- rtc: the packets that are made of a stream, and the sessions that send and receive them.
pub mod Safari
pub mod Packer
pub mod Unpacker
pub mod Sessions
