-- ===== src/Slot.antt =====
-- GPU slots (services/main-api/internal/slot and its SQL statements).
pub mod Queries
pub mod Repo
pub mod Valid
pub mod Invariant
pub mod Picked
pub mod Reserve
pub mod Sync
pub mod Undo
pub mod Bound
