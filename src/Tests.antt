-- ===== src/Tests.antt =====
-- Concrete runs of the definitions, and the theorems at concrete inputs.
pub mod Samples
mod Sort
mod Resolve
mod Auth
pub mod Rooms
mod Messages
mod ToDevice
mod Backup
mod DeviceKeys
mod Directory
mod Sync
mod Reading
mod Presence
mod Cache
