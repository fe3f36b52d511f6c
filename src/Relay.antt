-- ===== src/Relay.antt =====
-- relay/main.cpp: the relay, a program of its own that runs beside the game server.
pub mod Files
pub mod Entries
pub mod Life
pub mod Settings
pub mod Link
pub mod Process
pub mod Sender
pub mod Requests
