-- ===== src/Admin.antt =====
-- The tabs of the admin page: web/src/components/admin.
pub mod Servers
pub mod Users
pub mod Quotas
pub mod Economy
pub mod Settings
pub mod Look
pub mod Nodes
pub mod Allocations
