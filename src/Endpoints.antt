-- ===== src/Endpoints.antt =====
-- web/src/lib/endpoints.ts: every call of the panel's API, as what it passes to `apiRequest`.
pub mod Options
pub mod Account
pub mod Schedules
pub mod Open
pub mod Modrinth
pub mod Auth
pub mod Servers
pub mod Backups
pub mod Databases
pub mod Subusers
pub mod Files
pub mod Shop
pub mod Admin
pub mod Access
