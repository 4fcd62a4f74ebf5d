-- ===== src/Repository.antt =====
-- The receipt over the test results of repositories (components/repository-receipt/src/main.c).
pub mod Types
pub mod Paths
pub mod Result
pub mod Receipt
pub mod Program
