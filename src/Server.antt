-- ===== src/Server.antt =====
-- server: the HTTP interface and the notifications.
pub mod Middle
pub mod Notify
pub mod Router
