-- ===== src/Contract.antt =====
-- test-command-contract: the program of components/command-contract.
pub mod Types
pub mod Captured
pub mod Limits
pub mod Request
pub mod Files
pub mod Checks
pub mod Program
pub mod Usage
