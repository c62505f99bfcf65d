-- ===== src/Helpers.antt =====
-- The helper routines (crap_os/src/helper_functions.rs). Text is the list of its ASCII codes.
pub mod TaskCode
pub mod Hex
pub mod Decimal
pub mod Base64
