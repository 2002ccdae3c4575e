-- ===== src/Compute.antt =====
-- The compute agent (services/compute-agent/internal).
pub mod Profile
pub mod Layouts
pub mod Seeding
pub mod Xml
pub mod Hostdevs
pub mod Host
pub mod Manager
pub mod Vm
pub mod Steps
pub mod Lifecycle
pub mod Starting
pub mod Creation
pub mod Ops
pub mod Exclusive
pub mod Gpu
pub mod Bindable
