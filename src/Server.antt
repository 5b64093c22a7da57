-- ===== src/Server.antt =====
-- backend/internal/server: what stands between a request and the state. Gate is the guard of the web
-- pages, Devices the two routes of the displays.
pub mod Forms
pub mod Site
pub mod Gate
pub mod Devices
pub mod Login
pub mod Admin
pub mod Scope
pub mod Reset
pub mod Writes
pub mod Stale
