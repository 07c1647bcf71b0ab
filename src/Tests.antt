-- ===== src/Tests.antt =====
-- The theorems at concrete inputs.
pub mod Messages
pub mod Disks
pub mod Routes
pub mod ConfigFile
pub mod Entries
pub mod Changes
pub mod Pages
pub mod Reads
pub mod Services
pub mod Texts
pub mod Starts
pub mod Systems
pub mod Processes
pub mod Failures
pub mod Shelves
pub mod Frames
