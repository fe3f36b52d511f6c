-- ===== src/Remote.antt =====
-- src/core/remote_api_poller.cpp: the panels and services that are asked for players and events.
pub mod Fields
pub mod Leaderboard
pub mod Poller
