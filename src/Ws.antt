-- ===== src/Ws.antt =====
-- src/net/ws_handler.cpp: the difference between two player lists, and the hub of the clients.
pub mod Diff
pub mod Hub
