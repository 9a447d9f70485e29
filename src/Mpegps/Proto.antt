-- ===== src/Mpegps/Proto.antt =====
-- gb28181/mpegps/ps_proto.go and pes_proto.go: the packets of a program stream. A `Decode` method
-- changes its receiver and the bit stream, and returns an error or `none` for nil.
pub mod PackHeader
pub mod SystemHeader
pub mod StreamMap
pub mod Directory
pub mod Pes
