-- ===== src/Kernel.antt =====
-- The in-memory permission kernel of the sidecar, internal/sidecar/kernel.
pub mod Types
pub mod Casbin
pub mod Engine
pub mod Cache
