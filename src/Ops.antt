-- ===== src/Ops.antt =====
-- core/src/ops.rs: the transform pipeline, Top-N selection, and updates of subscriptions.
pub mod Regex
pub mod Transform
pub mod TopN
pub mod Update
