-- ===== src/Parse.antt =====
-- The module of `core/src/parse.rs`.
pub mod Authority
pub mod Clash
pub mod Dates
pub mod Fields
pub mod Links
pub mod Uri
pub mod V2ray
pub mod SingBox
pub mod Document
pub mod Usage
