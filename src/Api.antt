-- ===== src/Api.antt =====
-- The HTTP handlers of instances (services/main-api/internal/api/admin_instances.go).
pub mod View
pub mod Create
pub mod Destroy
pub mod Soundness
pub mod Keys
pub mod Undo
pub mod Refused
pub mod Owner
pub mod Hidden
