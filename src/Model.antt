-- ===== src/Model.antt =====
-- core/src/model.rs: the unified node model, its identity, its region guess, and subscriptions.
-- The children define; the proofs stand in the modules named for what they show.
pub mod Json
pub mod Proxy
pub mod Fingerprint
pub mod Region
pub mod Health
pub mod Merge
pub mod Subscription
