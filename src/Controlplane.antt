-- ===== src/Controlplane.antt =====
-- The part of the control plane that computes and sends policy changes: internal/controlplane.
pub mod Types
pub mod Translate
pub mod Diff
pub mod Manager
pub mod Hub
pub mod Iac
pub mod Store
pub mod Example
pub mod Projection
pub mod Writes
pub mod Import
