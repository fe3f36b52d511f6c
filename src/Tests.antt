-- ===== src/Tests.antt =====
-- The definitions run on concrete inputs, and the theorems applied at them.
mod Core
mod Auth
mod Rcon
mod Ws
mod Plugins
mod Pool
mod Points
mod Logs
mod Chat
mod Events
mod Messages
mod Relay
mod RelayRun
mod Remote
