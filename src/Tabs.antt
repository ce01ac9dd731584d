-- ===== src/Tabs.antt =====
-- The tabs of the page of a server: web/src/components/server.
pub mod Settings
pub mod Modrinth
pub mod Schedules
pub mod Sharing
pub mod Databases
