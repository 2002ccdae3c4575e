-- ===== src/Instance.antt =====
-- The life of an instance (services/main-api/internal/instance and its SQL statements).
pub mod Machine
pub mod Queries
pub mod Repo
pub mod Paths
pub mod Rows
pub mod Audit
pub mod Works
