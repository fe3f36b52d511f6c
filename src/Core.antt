-- ===== src/Core.antt =====
-- src/core/shared_utils.h and the text helpers of src/core/core.cpp.
pub mod Escape
pub mod Url
pub mod Config
pub mod Settings
pub mod Numbers
