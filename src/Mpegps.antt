-- ===== src/Mpegps.antt =====
-- gb28181/mpegps: the MPEG program stream, read and written bit by bit.
pub mod BitStream
pub mod BitList
pub mod BitStreamWriter
pub mod Crc
pub mod Nalu
pub mod StartCode
pub mod Verify
pub mod Demuxer
pub mod RoundTrip
pub mod Error
pub mod Proto
pub mod Muxer
