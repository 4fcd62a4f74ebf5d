-- ===== src/Conformance/Invariant.antt =====
-- The state of components/conformance/src/main.c: what its loaders keep.
pub mod Steps
pub mod Loaders
pub mod Documents
pub mod Calls
pub mod Program
