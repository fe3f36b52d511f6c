-- ===== src/Plugins.antt =====
-- The plugins of src/plugins.
pub mod Balance
pub mod Cdk
pub mod Chat
pub mod Welcome
pub mod Forgive
