-- ===== src/Server/Admin.antt =====
-- The handlers of the administrators' pages of backend/internal/server that change the
-- configuration. A handler is given a form that could be parsed; its texts after `error=` are the
-- section of the page that a complaint is shown at.
pub mod Settings
pub mod Accounts
pub mod Recovery
pub mod Places
