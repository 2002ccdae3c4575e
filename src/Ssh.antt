-- ===== src/Ssh.antt =====
-- Access to instances over SSH: the proxy's routes and main-api's tickets.
pub mod Router
pub mod Ticket
pub mod Prefix
pub mod Handler
pub mod Granted
pub mod Mux
pub mod Sessions
