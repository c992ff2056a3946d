-- ===== src/Zberr.antt =====
-- internal/zberr: the error kernel, its values and its registry of declared errors.
pub mod Layer
pub mod Code
pub mod Errors
pub mod Registry
