-- ===== src/Rcon.antt =====
-- src/net/rcon.cpp.
pub mod Packet
pub mod Client
pub mod Pool
