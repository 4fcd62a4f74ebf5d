-- ===== src/Faults.antt =====
-- test-faults: the fault campaign of src/ and include/.
pub mod Types
pub mod Library
pub mod Limits
pub mod Message
pub mod Variables
pub mod Paths
pub mod Policy
pub mod Printer
pub mod Case
pub mod Campaign
pub mod Cli
pub mod Status
pub mod Groups
pub mod Main
