-- ===== src/Examples.antt =====
-- The theorems at concrete inputs, by the part of the broker that they are about.
pub mod Wake
pub mod Frames
pub mod Accounts
pub mod Alerts
pub mod Stores
pub mod Fleet
pub mod Settings
pub mod Sites
pub mod Writes
pub mod Edits
pub mod Silence
pub mod Pages
pub mod Names
pub mod Routes
pub mod Logins
