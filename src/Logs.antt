-- ===== src/Logs.antt =====
-- src/core/log_parser.cpp.
pub mod Names
pub mod Patterns
pub mod Wounds
pub mod Events
pub mod Kills
pub mod Lines
pub mod Players
pub mod Tail
