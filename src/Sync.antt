-- ===== src/Sync.antt =====
-- The sidecar's subscription to the control plane: internal/sidecar/syncclient.
pub mod Translate
pub mod Convergence
pub mod Backoff
pub mod Client
