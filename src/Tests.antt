-- ===== src/Tests.antt =====
-- Examples: the theorems at concrete inputs.
pub mod Disk
pub mod Scene
pub mod Uploads
pub mod Sessions
pub mod Runs
pub mod Names
pub mod Preferences
pub mod Jobs
pub mod Devices
pub mod Parts
pub mod Start
pub mod Peers
pub mod Web
