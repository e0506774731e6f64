-- ===== src/Export.antt =====
-- The module of `core/src/export.rs`.
pub mod Clash
pub mod Names
pub mod Plugin
pub mod SingBox
pub mod Surge
pub mod V2ray
