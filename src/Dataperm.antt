-- ===== src/Dataperm.antt =====
-- The data permissions of the sidecar, internal/sidecar/dataperm: condition trees, the policy
-- table, the merge of a user's policies, and the SQL and symbolic renderings.
pub mod Condition
pub mod Table
pub mod Filter
pub mod RenderSql
pub mod Symbolic
pub mod Example
