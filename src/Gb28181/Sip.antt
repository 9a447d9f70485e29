-- ===== src/Gb28181/Sip.antt =====
-- gb28181: the signalling server of server.go with its devices (device.go) and channels (channel.go),
-- and the HTTP interface to it (http_logic.go). The source's global maps are fields of the server.
-- A time is the number of nanoseconds since Go's zero time. A handler runs as one step, and what it
-- starts with `go` runs at its end. What it sends and starts is a list of effects, oldest first.
pub mod Xml
pub mod Store
pub mod Auth
pub mod Devices
pub mod Register
pub mod Media
pub mod Invite
pub mod Call
pub mod Control
pub mod Message
pub mod Watch
pub mod Http
pub mod Run
pub mod Keys
