-- ===== src/Examples.antt =====
-- The theorems at concrete inputs, and tests of the definitions.
pub mod Worlds
mod Heals
mod Others
mod Members
pub mod Clouds
mod Channels
pub mod Desks
mod Documents
mod Backups
pub mod Boots
pub mod Builds
mod Manifests
mod Roles
