-- ===== src/Remote.antt =====
-- remote/server.go: what one connection of the remote host does.
pub mod Dispatch
pub mod Auth
pub mod Conn
