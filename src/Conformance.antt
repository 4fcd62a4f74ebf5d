-- ===== src/Conformance.antt =====
-- components/conformance: the comparison of a library's manifests with what was observed of it.
pub mod Invariant
pub mod Types
pub mod Fields
pub mod Table
pub mod Lines
pub mod Manifests
pub mod FaultManifest
pub mod Documents
pub mod Instrumentation
pub mod RunModel
pub mod Outcomes
pub mod Validation
pub mod Receipt
pub mod Program
