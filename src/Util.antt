-- ===== src/Util.antt =====
-- The package util.
pub mod Slice
pub mod ParamResolver
