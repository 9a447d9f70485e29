-- ===== src/Gb28181.antt =====
-- gb28181: device control commands, the pool of media ports, and the media connection.
pub mod Ptz
pub mod Ports
pub mod Conn
pub mod Sip
