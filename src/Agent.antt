-- ===== src/Agent.antt =====
-- The agent side of main-api (services/main-api/internal/grpc and internal/node).
pub mod Nodes
pub mod Status
pub mod Sweeper
pub mod Registry
pub mod Streams
pub mod Invariant
pub mod Release
pub mod Reaping
pub mod Reaped
pub mod Session
pub mod Served
pub mod Closed
pub mod Swept
